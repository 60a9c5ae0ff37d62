-- ===== src/Policy/Context.antt =====
-- The evaluation context of a request: `PolicyEngine._build_evaluation_context` of
-- src/egr/policies/engine.py, and which of its keys a request can set.
use mathlib.Core.Path.{subst}
use enterprise_agi_runtime.Prelude.{
  String, ◌≡◌, refl, sym, inl, inr, true, false, ◌≢◌, Bool-cases, Option, none, some, List, [], ◌∷◌,
  arith, ◌==◌, eq_iff, contains, Dict, lookup, insert, lookup-insert, if◌then◌else◌,
}
use enterprise_agi_runtime.Domain.{environment_name, risk_name}
use enterprise_agi_runtime.Policy.{
  Value, null, text, mapping, to_fields, ToolRequest, PolicyContext, policy_action,
}

-- The keys that a request's arguments never overwrite.
abbrev pub reserved : List String
reserved = "environment" ∷ "agent" ∷ "risk" ∷ "tool" ∷ "action" ∷ []

module _ {V : Type 0} where
  -- `d.get(key, default)`
  unfoldable pub get_or : String → V → Dict V → V
  get_or k v d = elim (lookup k d) [ none ↦ v | some w ↦ w ]

  -- `d.update(other)`
  unfoldable pub update : Dict V → Dict V → Dict V
  update d [] = d
  update d ((k, v) ∷ other) = update (insert k v d) other

  -- The loop over the arguments.
  unfoldable pub add_args : Dict V → Dict V → Dict V
  add_args d [] = d
  add_args d ((k, v) ∷ args) = add_args (if contains k reserved then d else insert k v d) args

module _ {N : Type 0} where
  abbrev pub optional_text : Option String → Value N
  optional_text none = null
  optional_text (some s) = text s

  unfoldable pub base_context : ToolRequest N → PolicyContext N → Dict (Value N)
  base_context request context =
      ("tool", text request.tool)
      ∷ ("action", text (policy_action request))
      ∷ ("environment", text (environment_name context.environment))
      ∷ ("agent", elim context.agent [ none ↦ null | some agent ↦ text agent.id ])
      ∷ ("risk", text (risk_name context.risk))
      ∷ ("task_id", optional_text request.task_id)
      ∷ ("external_ai", get_or "external_ai" (text "allowed") context.enterprise_settings)
      ∷ ("data_residency", get_or "data_residency" (text "local") context.enterprise_settings)
      ∷ []

  -- What the runtime itself says of the request, before its arguments are added.
  unfoldable pub runtime_context : ToolRequest N → PolicyContext N → Dict (Value N)
  runtime_context request context =
      update (update (base_context request context) context.security) context.extra

  unfoldable pub build_evaluation_context : ToolRequest N → PolicyContext N → Dict (Value N)
  build_evaluation_context request context =
      insert "args" (mapping (to_fields request.args))
        (add_args (runtime_context request context) request.args)

-- The value that the last entry with the key holds, as a later entry overwrites an earlier one.
unfoldable pub last_value : {V : Type 0} → String → Dict V → Option V
last_value k [] = none
last_value k ((j, v) ∷ d) =
    let rest = last_value k d in
    elim rest [ none ↦ if j == k then some v else none | some w ↦ some w ]

module _ {V : Type 0} where
  lookup-add_args-reserved :
      (k : String) (d args : Dict V)
      → contains k reserved ≡ true
      → lookup k (add_args d args) ≡ lookup k d
  unfolding add_args
  lookup-add_args-reserved k d [] h = refl
  lookup-add_args-reserved k d ((j, v) ∷ args) h = ground (
    arith,
    lookup-add_args-reserved k (if contains j reserved then d else insert j v d) args h,
    lookup-insert j k v d,
    eq_iff j k,
  )

  lookup-add_args_free :
      (k : String) (d args : Dict V)
      → contains k reserved ≡ false
      → lookup k (add_args d args)
        ≡ elim (last_value k args) [ none ↦ lookup k d | some w ↦ some w ]
  unfolding add_args last_value
  lookup-add_args_free k d [] h = refl
  lookup-add_args_free k d ((j, v) ∷ args) h = ground (
    arith,
    lookup-add_args_free k (if contains j reserved then d else insert j v d) args h,
    lookup-insert j k v d,
    eq_iff j k,
  )

args_not_reserved : (k : String) → contains k reserved ≡ true → ("args" == k) ≡ false
args_not_reserved k h = elim (Bool-cases ("args" == k)) [
  | inl e ↦
      let at_args : contains "args" reserved ≡ true =
        subst (λ x. contains x reserved ≡ true) (sym ((eq_iff "args" k).0 e)) h in
      cc
  | inr e ↦ e
]

module _ {N : Type 0} (request : ToolRequest N) (context : PolicyContext N) (k : String) where
  -- A condition that names a reserved key reads what the runtime says, whatever the arguments of
  -- the request are.
  pub reserved_key_protected :
      contains k reserved ≡ true
      → lookup k (build_evaluation_context request context)
        ≡ lookup k (runtime_context request context)
  unfolding build_evaluation_context
  reserved_key_protected h =
      rw
        (
          lookup-insert "args" k (mapping (to_fields request.args))
              (add_args (runtime_context request context) request.args),
          args_not_reserved k h,
        )
        (lookup-add_args-reserved k (runtime_context request context) request.args h)

  -- Any other key but `args` reads the last argument of that name, if the request has one, also
  -- where the runtime's own facts (`external_ai`, `data_residency`, `task_id`, the security
  -- facts of the context) have that key; otherwise it reads what the runtime says.
  pub argument_overrides :
      contains k reserved ≡ false
      → k ≢ "args"
      → lookup k (build_evaluation_context request context) ≡ elim (last_value k request.args) [
        | none ↦ lookup k (runtime_context request context)
        | some w ↦ some w
      ]
  unfolding build_evaluation_context
  argument_overrides h e = ground (
    arith,
    lookup-insert "args" k (mapping (to_fields request.args))
        (add_args (runtime_context request context) request.args),
    lookup-add_args_free k (runtime_context request context) request.args h,
    eq_iff "args" k,
  )
