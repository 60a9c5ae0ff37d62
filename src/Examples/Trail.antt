-- ===== src/Examples/Trail.antt =====
-- Small trails of src/egr/audit/ledger.py, with a stand-in for the JSON and hash functions.
use enterprise_agi_runtime.Prelude.{suc, String, ◌≡◌, refl, none, some, List, [], ◌∷◌, map, ◌⊎◌}
use Prim.Native.Char.{Char}
use Prim.Native.String.{count}
use text.Mathlib.TextLemmas.{length-cons}
use enterprise_agi_runtime.Prelude.Text.{concat}
use enterprise_agi_runtime.Audit.Ledger.{
  Body, Row, Codec, genesis, or_genesis, last_hash, chain_hash, next_row, append_event, text_of,
  is_broken, broken_rows, head_of, verify,
}
use enterprise_agi_runtime.Audit.Chain.{Collides, verify-append_event, verify-same_head}

-- A text of 64 characters which starts with the last one of the given text.
abbrev last_character : Char → String → String
last_character c String.[] =
    String.◌∷◌ c "000000000000000000000000000000000000000000000000000000000000000"
last_character c (String.◌∷◌ d text) = last_character d text

abbrev codec : Codec String
codec = record {
  dumps = λ payload. payload;
  loads = λ text. text;
  canonical_json = λ body. concat (body.payload ∷ "," ∷ body.id ∷ []);
  sha256 = λ text. last_character "0" text;
}

abbrev opened : Body String
opened = record {
  id = "e1";
  type = "task.created";
  actor = "runtime";
  task_id = some "t1";
  agent_id = none;
  environment = "development";
  payload = "{}";
  created_at = "2026-01-01T00:00:00Z";
}

abbrev ended : Body String
ended = record opened { id = "e2"; type = "task.completed" }

abbrev trail : List Row
trail = append_event codec ended (append_event codec opened [])

verify-append_event_example :
    ((verify codec (append_event codec ended trail)).broken ≡ (verify codec trail).broken)
    × ((verify codec (append_event codec ended trail)).valid ≡ (verify codec trail).valid)
    × ((verify codec (append_event codec ended trail)).events ≡ suc (verify codec trail).events)
    × ((verify codec (append_event codec ended trail)).head
        ≡ or_genesis (chain_hash codec (verify codec trail).head (codec.canonical_json ended)))
verify-append_event_example = verify-append_event codec trail ended refl

count-last_character : (c : Char) (text : String) → count (last_character c text) ≡ 64
count-last_character c String.[] =
    length-cons c "000000000000000000000000000000000000000000000000000000000000000"
count-last_character c (String.◌∷◌ d text) = count-last_character d text

verify-same_head_example :
    (map (text_of codec) trail ≡ map (text_of codec) trail)
    ⊎ Collides codec genesis trail genesis trail
unfolding verify append_event next_row or_genesis last_hash chain_hash broken_rows is_broken head_of
    concat
verify-same_head_example =
    verify-same_head codec (count-last_character "0") trail trail refl refl refl refl
