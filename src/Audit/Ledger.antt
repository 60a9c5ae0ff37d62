-- ===== src/Audit/Ledger.antt =====
-- The hash chain of the audit trail: `AuditLedger.record` and `verify` of
-- src/egr/audit/ledger.py, over the hashing of src/egr/core/hashing.py. The table `events` is the
-- list of its rows in the order of `seq`.
use enterprise_agi_runtime.Prelude.{
  ℕ, String, Bool, not, ◌||◌, Option, List, [], ◌∷◌, ◌++◌, ◌==◌, length, is_empty, if◌then◌else◌,
}
use enterprise_agi_runtime.Prelude.Text.{concat}

-- What is hashed of an event: `_hash_payload`.
pub record Body (P : Type 0) : Type 0 where
  pub id : String
  pub type : String
  pub actor : String
  pub task_id : Option String
  pub agent_id : Option String
  pub environment : String
  pub payload : P
  pub created_at : String

-- A row of the table `events`: the payload is JSON text.
pub record Row : Type 0 where
  pub body : Body String
  pub prev_hash : String
  pub hash : String

-- Python's JSON (with the canonical form of a whole body) and SHA-256 in hexadecimal.
pub record Codec (P : Type 0) : Type 0 where
  pub dumps : P → String
  pub loads : String → P
  pub canonical_json : Body P → String
  pub sha256 : String → String

abbrev pub genesis : String
genesis = "0000000000000000000000000000000000000000000000000000000000000000"

-- `previous or GENESIS`
unfoldable pub or_genesis : String → String
or_genesis previous = if previous == "" then genesis else previous

-- `SELECT hash FROM events ORDER BY seq DESC LIMIT 1`, or the empty text
unfoldable pub last_hash : List Row → String
last_hash [] = ""
last_hash (row ∷ []) = row.hash
last_hash (row ∷ next ∷ rows) = last_hash (next ∷ rows)

-- What `verify` answers.
pub record Report : Type 0 where
  pub valid : Bool
  pub events : ℕ
  pub broken : List Row
  pub head : String

module _ {P : Type 0} (codec : Codec P) where
  -- `chain_hash`, of a canonical text
  unfoldable pub chain_hash : String → String → String
  chain_hash previous text = codec.sha256 (concat (or_genesis previous ∷ "|" ∷ text ∷ []))

  abbrev pub stored : Body P → Body String
  stored body = record {
    id = body.id;
    type = body.type;
    actor = body.actor;
    task_id = body.task_id;
    agent_id = body.agent_id;
    environment = body.environment;
    payload = codec.dumps body.payload;
    created_at = body.created_at;
  }

  abbrev pub loaded : Body String → Body P
  loaded body = record {
    id = body.id;
    type = body.type;
    actor = body.actor;
    task_id = body.task_id;
    agent_id = body.agent_id;
    environment = body.environment;
    payload = codec.loads body.payload;
    created_at = body.created_at;
  }

  -- The row that `record` inserts.
  unfoldable pub next_row : List Row → Body P → Row
  next_row rows body = record {
    body = stored body;
    prev_hash = or_genesis (last_hash rows);
    hash = chain_hash (or_genesis (last_hash rows)) (codec.canonical_json body);
  }

  -- `record`
  unfoldable pub append_event : Body P → List Row → List Row
  append_event body rows = rows ++ next_row rows body ∷ []

  -- The text that `verify` hashes for a row.
  abbrev pub text_of : Row → String
  text_of row = codec.canonical_json (loaded row.body)

  -- `expected != row["hash"] or row["prev_hash"] != previous`
  unfoldable pub is_broken : String → Row → Bool
  is_broken previous row =
      not (chain_hash previous (text_of row) == row.hash) || not (row.prev_hash == previous)

  -- The loop of `verify`: the broken rows and the last hash.
  unfoldable pub broken_rows : String → List Row → List Row
  broken_rows previous [] = []
  broken_rows previous (row ∷ rows) =
      let rest = broken_rows (or_genesis row.hash) rows in
      if is_broken previous row then row ∷ rest else rest

  unfoldable pub head_of : String → List Row → String
  head_of previous [] = previous
  head_of previous (row ∷ rows) = head_of (or_genesis row.hash) rows

  -- `verify`
  unfoldable pub verify : List Row → Report
  verify rows = record {
    valid = is_empty (broken_rows genesis rows);
    events = length rows;
    broken = broken_rows genesis rows;
    head = head_of genesis rows;
  }
