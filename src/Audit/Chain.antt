-- ===== src/Audit/Chain.antt =====
-- What the chain of the audit trail is good for: recording keeps it, and two trails with one head
-- are one trail. About src/egr/audit/ledger.py.
use enterprise_agi_runtime.Prelude.{
  ◌⊎◌, ◌≢◌, suc, String, ◌≡◌, refl, ap, ◌∙◌, inl, inr, true, false, List, [], ◌∷◌, ◌++◌, ◌==◌,
  arith, eq_iff, length, length-append, is_empty, map, Bool-cases,
}
use Prim.Native.String.{count}
use text.Mathlib.TextLemmas.{append-nil, append_inj}
use mathlib.Core.Path.{sym, subst}
use enterprise_agi_runtime.Prelude.Text.{concat}
use enterprise_agi_runtime.Audit.Ledger.{
  Body, Row, Codec, genesis, or_genesis, last_hash, chain_hash, stored, loaded, next_row,
  append_event, text_of, is_broken, broken_rows, head_of, verify,
}

or_genesis_twice : (h : String) → or_genesis (or_genesis h) ≡ or_genesis h
unfolding or_genesis
or_genesis_twice h = ground (arith, eq_iff h "")

none_broken : (rows : List Row) → is_empty rows ≡ true → rows ≡ []
none_broken [] h = refl
none_broken (row ∷ rows) h = absurd (cc)

module _ {P : Type 0} (codec : Codec P) where
  broken_rows-append :
      (previous : String) (rows : List Row) (row : Row)
      → is_broken codec (head_of codec previous rows) row ≡ false
      → broken_rows codec previous (rows ++ row ∷ []) ≡ broken_rows codec previous rows
  unfolding broken_rows head_of
  broken_rows-append previous [] row h = rw h refl
  broken_rows-append previous (first ∷ rows) row h =
      rw (broken_rows-append (or_genesis first.hash) rows row h) refl

  head_of-append :
      (previous : String) (rows : List Row) (row : Row)
      → head_of codec previous (rows ++ row ∷ []) ≡ or_genesis row.hash
  unfolding head_of
  head_of-append previous [] row = refl
  head_of-append previous (first ∷ rows) row = head_of-append (or_genesis first.hash) rows row

  head_of-last :
      (previous : String) (row : Row) (rows : List Row)
      → head_of codec previous (row ∷ rows) ≡ or_genesis (last_hash (row ∷ rows))
  unfolding head_of last_hash
  head_of-last previous row [] = refl
  head_of-last previous row (next ∷ rows) = head_of-last (or_genesis row.hash) next rows

  head_of-genesis : (rows : List Row) → head_of codec genesis rows ≡ or_genesis (last_hash rows)
  unfolding head_of last_hash or_genesis
  head_of-genesis [] = refl
  head_of-genesis (row ∷ rows) = head_of-last genesis row rows

  next_hash :
      (rows : List Row) (body : Body P)
      → or_genesis (next_row codec rows body).hash
        ≡ or_genesis (chain_hash codec (head_of codec genesis rows) (codec.canonical_json body))
  unfolding next_row
  next_hash rows body = rw (head_of-genesis rows) refl

  -- An event whose payload is hashed alike after the round trip through the column.
  abbrev pub IsStable : Body P → Type 0
  IsStable body =
      codec.canonical_json (loaded codec (stored codec body)) ≡ codec.canonical_json body

  next_row-not_broken :
      (rows : List Row) (body : Body P)
      → IsStable body
      → is_broken codec (or_genesis (last_hash rows)) (next_row codec rows body) ≡ false
  unfolding is_broken next_row
  next_row-not_broken rows body h = ground (
    arith,
    ap (chain_hash codec (or_genesis (last_hash rows))) h,
    eq_iff
        (chain_hash codec (or_genesis (last_hash rows)) (text_of codec (next_row codec rows body)))
        (chain_hash codec (or_genesis (last_hash rows)) (codec.canonical_json body)),
    eq_iff (or_genesis (last_hash rows)) (or_genesis (last_hash rows)),
  )

  -- When the payload of the event is hashed alike after the round trip through the column, after
  -- `record` the answer of `verify` counts one event more, has the same broken rows and the same
  -- validity as before, and its head is the hash of the event behind the head before.
  pub verify-append_event :
      (rows : List Row) (body : Body P)
      → IsStable body
      → ((verify codec (append_event codec body rows)).broken ≡ (verify codec rows).broken)
        × ((verify codec (append_event codec body rows)).valid ≡ (verify codec rows).valid)
        × ((verify codec (append_event codec body rows)).events ≡ suc (verify codec rows).events)
        × ((verify codec (append_event codec body rows)).head
            ≡ or_genesis (chain_hash codec (verify codec rows).head (codec.canonical_json body)))
  unfolding verify append_event
  verify-append_event rows body h =
      let fresh =
        subst (λ p. is_broken codec p (next_row codec rows body) ≡ false)
          (sym (head_of-genesis rows)) (next_row-not_broken rows body h) in
      let same = broken_rows-append genesis rows (next_row codec rows body) fresh in
      (
        same,
        ap is_empty same,
        omega (arith, length-append rows (next_row codec rows body ∷ [])),
        head_of-append genesis rows (next_row codec rows body) ∙ next_hash rows body,
      )

  whole_row :
      (p : String) (row : Row) (rows : List Row)
      → broken_rows codec p (row ∷ rows) ≡ []
      → (chain_hash codec p (text_of codec row) ≡ row.hash)
        × (broken_rows codec (or_genesis row.hash) rows ≡ [])
  unfolding broken_rows is_broken
  whole_row p row rows h =
      (ground (arith, eq_iff (chain_hash codec p (text_of codec row)) row.hash), ground arith)

  -- What is hashed for a row behind the hash `previous`.
  abbrev pub hashed : String → Row → String
  hashed previous row = concat (or_genesis previous ∷ "|" ∷ text_of codec row ∷ [])

  -- Two trails, each behind a hash, in which two rows at the same place are hashed from different
  -- texts to one digest.
  pub data Collides : String → List Row → String → List Row → Type 0 where
    here :
        (p q : String) (row other : Row) (rows others : List Row)
        → hashed p row ≢ hashed q other
        → codec.sha256 (hashed p row) ≡ codec.sha256 (hashed q other)
        → Collides p (row ∷ rows) q (other ∷ others)
    later :
        (p q : String) (row other : Row) (rows others : List Row)
        → Collides (or_genesis row.hash) rows (or_genesis other.hash) others
        → Collides p (row ∷ rows) q (other ∷ others)

  -- Hashes of one length end at the same place of the hashed texts.
  hashed-parts :
      (p q : String) (row other : Row)
      → count (or_genesis p) ≡ count (or_genesis q)
      → hashed p row ≡ hashed q other
      → (or_genesis p ≡ or_genesis q) × (text_of codec row ≡ text_of codec other)
  unfolding concat
  hashed-parts p q row other n h =
      let both = append_inj h n in
      let behind : concat ("|" ∷ text_of codec row ∷ []) ≡ concat ("|" ∷ text_of codec other ∷ []) =
        both.1 in
      let text = append_inj behind refl in
      (both.0, sym (append-nil (text_of codec row)) ∙ text.1 ∙ append-nil (text_of codec other))

  by_hashed :
      (p q : String) (r o : Row) (rows others : List Row)
      → count (or_genesis p) ≡ count (or_genesis q)
      → chain_hash codec p (text_of codec r) ≡ chain_hash codec q (text_of codec o)
      → map (text_of codec) rows ≡ map (text_of codec) others
      → ((or_genesis p ≡ or_genesis q)
          × (map (text_of codec) (r ∷ rows) ≡ map (text_of codec) (o ∷ others)))
        ⊎ Collides p (r ∷ rows) q (o ∷ others)
  unfolding chain_hash
  by_hashed p q r o rows others n digest texts = elim (Bool-cases (hashed p r == hashed q o)) [
    | inl e ↦
        let (first, text) = hashed-parts p q r o n ((eq_iff (hashed p r) (hashed q o)).0 e) in
        inl (first, cc)
    | inr e ↦ inr (
        here p q r o rows others (λ same. ground (arith, (eq_iff (hashed p r) (hashed q o)).1 same))
          digest)
  ]

  module _ (digest_size : (text : String) → count (codec.sha256 text) ≡ 64) where
    count-sealed : (p text hash : String) → chain_hash codec p text ≡ hash → count hash ≡ 64
    unfolding chain_hash
    count-sealed p text hash h = ap count (sym h) ∙ digest_size _

    hash_kept : (p text hash : String) → chain_hash codec p text ≡ hash → or_genesis hash ≡ hash
    unfolding or_genesis
    hash_kept p text hash h = elim (Bool-cases (hash == "")) [
      | inl e ↦
          let none : count hash ≡ 0 = ap count ((eq_iff hash "").0 e) in
          absurd (omega (arith, none, count-sealed p text hash h))
      | inr e ↦ rw e refl
    ]

    size-sealed :
        (p text hash : String)
        → chain_hash codec p text ≡ hash
        → count (or_genesis (or_genesis hash)) ≡ 64
    size-sealed p text hash h =
        ap count (or_genesis_twice hash ∙ hash_kept p text hash h) ∙ count-sealed p text hash h

    texts_agree :
        (p q : String) (rows others : List Row)
        → count (or_genesis p) ≡ 64
        → count (or_genesis q) ≡ 64
        → broken_rows codec p rows ≡ []
        → broken_rows codec q others ≡ []
        → length rows ≡ length others
        → head_of codec p rows ≡ head_of codec q others
        → ((or_genesis p ≡ or_genesis q) × (map (text_of codec) rows ≡ map (text_of codec) others))
          ⊎ Collides p rows q others
    unfolding head_of
    texts_agree p q [] [] m k b c n h = inl (ap or_genesis h, refl)
    texts_agree p q [] (o ∷ others) m k b c n h = absurd (omega (arith, n))
    texts_agree p q (r ∷ rows) [] m k b c n h = absurd (omega (arith, n))
    texts_agree p q (r ∷ rows) (o ∷ others) m k b c n h =
        let (sealed, b1) = whole_row p r rows b in
        let (sealed1, c1) = whole_row q o others c in
        elim (texts_agree (or_genesis r.hash) (or_genesis o.hash) rows others
          (size-sealed p (text_of codec r) r.hash sealed)
          (size-sealed q (text_of codec o) o.hash sealed1) b1 c1 (omega (arith, n)) h) [
            | inr found ↦ inr (later p q r o rows others found)
            | inl (e, texts) ↦
                let digest =
                  sealed
                  ∙ sym (hash_kept p (text_of codec r) r.hash sealed)
                  ∙ sym (or_genesis_twice r.hash)
                  ∙ e
                  ∙ or_genesis_twice o.hash
                  ∙ hash_kept q (text_of codec o) o.hash sealed1
                  ∙ sym sealed1 in
                by_hashed p q r o rows others (m ∙ sym k) digest texts
          ]

  -- When every digest has 64 characters, two trails that are both valid, equally long and have one
  -- head hold, row by row, events with one canonical text; or at one place of the two trails `verify`
  -- hashes different texts to one digest.
  pub verify-same_head :
      ((text : String) → count (codec.sha256 text) ≡ 64)
      → (rows others : List Row) → (verify codec rows).valid ≡ true
      → (verify codec others).valid ≡ true
      → (verify codec rows).events ≡ (verify codec others).events
      → (verify codec rows).head ≡ (verify codec others).head
      → (map (text_of codec) rows ≡ map (text_of codec) others)
        ⊎ Collides genesis rows genesis others
  unfolding verify or_genesis
  verify-same_head digest_size rows others valid valid1 count head =
      elim (texts_agree digest_size genesis genesis rows others refl refl (none_broken _ valid)
        (none_broken _ valid1) count head) [ inl both ↦ inl both.1 | inr found ↦ inr found ]
