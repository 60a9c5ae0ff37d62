-- ===== src/Release/Quorum.antt =====
-- Who may approve a release, and when it counts as approved: `Release.approvers` and
-- `ReleaseManager.approve` of src/egr/domain/release.py and src/egr/release/manager.py.
use enterprise_agi_runtime.Prelude.{
  String, ◌≡◌, refl, inl, inr, Bool, true, false, not, ◌&&◌, ◌||◌, Option, some, List, [], ◌∷◌,
  ◌++◌, arith, ◌==◌, eq_iff, keep, length, leb, Bool-cases, contains, contains-append, lookup,
  insert, lookup-insert_self,
}
use mathlib.Core.Path.{subst}
use enterprise_agi_runtime.Prelude.Exec.{
  ok, bind-ok, guard-ok, config_error, wrong_state, already_voted, authorization_error,
}
use enterprise_agi_runtime.Prelude.Text.{remove_human}
use enterprise_agi_runtime.Release.{
  Release, ReleaseApproval, ReleaseStatus, World, Site, vetoes, approvers, approvers_loop,
  release_approval_recorded,
}
use enterprise_agi_runtime.Release.Signature.{manifest, manifest_hash}
use enterprise_agi_runtime.Release.Versions.{log}
use enterprise_agi_runtime.Release.Manager.{
  vote, has_voted, voter_of, may_vote, get, is_submitted, is_approved, resolve, roles_of, add_vote,
  authorize, votes_required, counted, complete, closed, settle, approve,
}

-- No name stands twice.
abbrev pub distinct : List String → Bool
distinct [] = true
distinct (name ∷ names) = not (contains name names) && distinct names

distinct-snoc :
    (name : String) (names : List String)
    → distinct names ≡ true
    → contains name names ≡ false
    → distinct (names ++ name ∷ []) ≡ true
distinct-snoc name [] h m = refl
distinct-snoc name (x ∷ names) h m = ground (
  arith,
  eq_iff x name,
  eq_iff name x,
  contains-append x names (name ∷ []),
  distinct-snoc name names,
)

distinct-approvers_loop :
    (exclude : Bool) (author : String) (items : List ReleaseApproval) (names : List String)
    → distinct names ≡ true
    → distinct (approvers_loop exclude author items names) ≡ true
unfolding approvers_loop
distinct-approvers_loop exclude author [] names h = h
distinct-approvers_loop exclude author (item ∷ items) names h =
    elim (Bool-cases (
      (exclude && remove_human item.actor == author) || contains (remove_human item.actor) names)) [
        | inl e ↦ rw e (distinct-approvers_loop exclude author items names h)
        | inr e ↦ rw e (
            distinct-approvers_loop exclude author items (names ++ remove_human item.actor ∷ [])
              (distinct-snoc (remove_human item.actor) names h (ground arith)))
      ]

author-approvers_loop :
    (author : String) (items : List ReleaseApproval) (names : List String)
    → contains author names ≡ false
    → contains author (approvers_loop true author items names) ≡ false
unfolding approvers_loop
author-approvers_loop author [] names h = h
author-approvers_loop author (item ∷ items) names h =
    elim (Bool-cases
      (remove_human item.actor == author || contains (remove_human item.actor) names)) [
        | inl e ↦ rw e (author-approvers_loop author items names h)
        | inr e ↦ rw e (
            author-approvers_loop author items (names ++ remove_human item.actor ∷ [])
              (ground (arith, contains-append author names (remove_human item.actor ∷ []))))
      ]

-- The names that a release counts are distinct, however often somebody has voted and under
-- whichever spelling; and when the author is excluded, the author is not among them.
pub approvers-distinct :
    (release : Release) (exclude : Bool)
    → (distinct (approvers release exclude) ≡ true)
      × (contains (remove_human release.created_by) (approvers release true) ≡ false)
unfolding approvers
approvers-distinct release exclude = (
  distinct-approvers_loop exclude (remove_human release.created_by)
      (keep (λ item. item.approved) release.approvals) [] refl,
  author-approvers_loop (remove_human release.created_by)
      (keep (λ item. item.approved) release.approvals) [] refl,
)

not_yet : (status : ReleaseStatus) → is_submitted status ≡ true → is_approved status ≡ false
not_yet status h = ground arith

module _ (site : Site) where
  -- A release that carries what its approval promises.
  abbrev pub IsQuorate : Release → Type 0
  IsQuorate r =
      (leb (votes_required site r) (length (counted site r)) ≡ true)
      × (vetoes r ≡ [])
      × (r.approved_manifest ≡ some (manifest_hash site r))

  closed-IsQuorate :
      (release : Release) (note : String)
      → complete site release ≡ true
      → IsQuorate (closed site release note)
  unfolding complete counted approvers vetoes manifest_hash manifest
  closed-IsQuorate release note h = (ground arith, ground arith, refl)

  settle-ok :
      (release r : Release) (actor note : String) (w v : World)
      → is_approved release.status ≡ false
      → settle site release actor note w ≡ (ok r, v)
      → is_approved r.status ≡ true
      → IsQuorate r × (lookup r.id v.releases ≡ some r)
  unfolding settle
  settle-ok release r actor note w v s h a = elim (Bool-cases (complete site release)) [
    | inl e ↦
        let q : closed site release note ≡ r = ground arith in
        let t : insert release.id (closed site release note) w.releases ≡ v.releases =
          ground arith in
        subst (λ r. IsQuorate r × (lookup r.id v.releases ≡ some r)) q
          (
            closed-IsQuorate release note e,
            subst (λ d. lookup release.id d ≡ some (closed site release note)) t
                (lookup-insert_self release.id (closed site release note) w.releases),
          )
    | inr e ↦ absurd (ground arith)
  ]

  vote-ok :
      (release r : Release) (decisor : String) (token : Option String) (note : String) (w v : World)
      → is_approved release.status ≡ false
      → vote site release decisor token note w ≡ (ok r, v)
      → is_approved r.status ≡ true
      → IsQuorate r × (lookup r.id v.releases ≡ some r)
  unfolding vote
  vote-ok release r decisor token note w v s h a =
      let (fresh, h1) =
        guard-ok (not (has_voted release (voter_of decisor))) (config_error already_voted) _ h in
      let roles = roles_of (resolve site token (remove_human decisor)) in
      let (role, h2) = guard-ok (may_vote site roles) authorization_error _ h1 in
      settle-ok (add_vote release (voter_of decisor) roles note) r decisor note
        (log release_approval_recorded decisor release.id w).1 v s h2 a

  -- When `approve` returns an approved release, that is what is stored; the people it counts are at
  -- least as many as the policy requires and are distinct, nobody has vetoed it, and the manifest
  -- hash that it keeps is the one of the release as returned.
  pub approve-IsQuorate :
      (release_id actor : String) (token : Option String) (note : String) (w v : World)
      (r : Release)
      → approve site release_id actor token note w ≡ (ok r, v)
      → is_approved r.status ≡ true
      → IsQuorate r × (distinct (counted site r) ≡ true) × (lookup r.id v.releases ≡ some r)
  unfolding approve counted
  approve-IsQuorate release_id actor token note w v r h a =
      let (release, w1, found, h1) = bind-ok (get release_id) h in
      let (submitted, h2) =
        guard-ok (is_submitted release.status) (config_error wrong_state) _ h1 in
      let (decisor, w2, authorized, h3) =
        bind-ok (authorize site release actor (resolve site token (remove_human actor))) h2 in
      let (quorate, stored) =
        vote-ok release r decisor token note w2 v (not_yet release.status submitted) h3 a in
      (quorate, (approvers-distinct r _).0, stored)
