-- ===== src/Plc/Command/Allowed.antt =====
-- Nothing but the catalogue's commands is built.
use mqttview.Common.{
  ℕ, suc, ◌≤◌, ◌<◌, ◌≡◌, refl, sym, ap, subst, ◌⊎◌, inl, inr, ◌&&◌, ◌||◌, Option, none, some, List,
  [], ◌∷◌, Bytes, codes, bytes_eq, ltb, if◌then◌else◌, ℤ, pos, negsuc, get_elem?, if_inv, arith,
}
use mqttview.Strings.{trim_space, to_lower}
use mqttview.Plc.Command.{
  CommandRequest, CommandSpec, Param, no_param, level, value, command_catalogue, find_command,
  lookup_command, CommandPayload, CommandError, dali_max_level, atoi, itoa, address_error,
  bad_level, bad_value, unmarshalable, Params, params, rejected, check_level, check_value,
  check_params, Built, built, refused, render, build_for, build_command,
}

-- The parameters that a command of the kind has.
unfoldable pub HasParams : Param → List Bytes → Type 0
HasParams no_param ps = ps ≡ []
HasParams level ps = (n : ℕ) × (n ≤ dali_max_level) × (ps ≡ itoa n ∷ [])
HasParams value ps = (ps ≡ codes "true" ∷ []) ⊎ (ps ≡ codes "false" ∷ [])

-- A payload for a command of the catalogue, with an address in its bounds, or 0 where it takes none,
-- and its one parameter in the form that the PLC reads.
pub record IsAllowed (spec : CommandSpec) (p : CommandPayload) : Type 0 where
  pub place : ℕ
  pub listed : get_elem? command_catalogue place ≡ some spec
  pub target : p.target ≡ spec.target
  pub command : p.command ≡ spec.command
  pub address : ℕ
  pub addressed : p.address ≡ pos address
  pub bounded :
      (0 < spec.max_address) × (spec.min_address ≤ address) × (address ≤ spec.max_address)
      ⊎ (spec.max_address ≡ 0) × (address ≡ 0)
  pub parameters : HasParams spec.param p.params

find_command-listed :
    (target command : Bytes) (specs : List CommandSpec) (spec : CommandSpec)
    → find_command target command specs ≡ some spec
    → (i : ℕ) × (get_elem? specs i ≡ some spec)
unfolding find_command
find_command-listed target command [] spec e = absurd (ground arith)
find_command-listed target command (s ∷ specs) spec e =
    elim (if_inv (bytes_eq s.target target && bytes_eq s.command command) (some s)
      (find_command target command specs) (some spec) e) [
        | inl (y, same) ↦ (0, same)
        | inr (n, later) ↦
            let (i, f) = find_command-listed target command specs spec later in (suc i, f)
      ]

-- What passes the guards on the address.
address_error-bounds :
    (spec : CommandSpec) (address : ℤ)
    → address_error spec address ≡ none
    → (n : ℕ) × (address ≡ pos n)
      × ((0 < spec.max_address) × (spec.min_address ≤ n) × (n ≤ spec.max_address)
          ⊎ (spec.max_address ≡ 0) × (n ≡ 0))
unfolding address_error
address_error-bounds spec (pos n) e = (n, refl, ground arith)
address_error-bounds spec (negsuc n) e = absurd (ground arith)

params-inj : {ps qs : List Bytes} → params ps ≡ params qs → ps ≡ qs
params-inj e = cc

rejected-ne-params : {e : CommandError} {ps : List Bytes} → rejected e ≡ params ps → ⊥
rejected-ne-params e = ground arith

check_value-HasParams :
    (s : Bytes) (ps : List Bytes) → check_value s ≡ params ps → HasParams value ps
unfolding check_value HasParams
check_value-HasParams s ps e =
    let yes = bytes_eq s (codes "true") || bytes_eq s (codes "1") || bytes_eq s (codes "on") in
    let no = bytes_eq s (codes "false") || bytes_eq s (codes "0") || bytes_eq s (codes "off") in
    let off = if no then params (codes "false" ∷ []) else rejected bad_value in
    elim (if_inv yes (params (codes "true" ∷ [])) off (params ps) e) [
      | inl (y, same) ↦ inl (sym (params-inj same))
      | inr (n, other) ↦
          elim (if_inv no (params (codes "false" ∷ [])) (rejected bad_value) (params ps) other) [
            | inl (y, same) ↦ inr (sym (params-inj same))
            | inr (m, bad) ↦ absurd (rejected-ne-params bad)
          ]
    ]

check_level-HasParams :
    (o : Option ℤ) (ps : List Bytes) → check_level o ≡ params ps → HasParams level ps
unfolding check_level HasParams
check_level-HasParams none ps e = absurd (rejected-ne-params e)
check_level-HasParams (some (negsuc n)) ps e = absurd (rejected-ne-params e)
check_level-HasParams (some (pos n)) ps e =
    elim (if_inv (ltb dali_max_level n) (rejected bad_level) (params (itoa n ∷ [])) (params ps) e) [
      | inl (y, bad) ↦ absurd (rejected-ne-params bad)
      | inr (few, same) ↦ (n, ground arith, sym (params-inj same))
    ]

check_params-HasParams :
    (k : Param) (vs ps : List Bytes) → check_params k vs ≡ params ps → HasParams k ps
unfolding check_params HasParams
check_params-HasParams no_param [] ps e = sym (params-inj e)
check_params-HasParams no_param (v ∷ vs) ps e = absurd (rejected-ne-params e)
check_params-HasParams level [] ps e = absurd (rejected-ne-params e)
check_params-HasParams level (v ∷ []) ps e = check_level-HasParams (atoi v) ps e
check_params-HasParams level (v ∷ w ∷ vs) ps e = absurd (rejected-ne-params e)
check_params-HasParams value [] ps e = absurd (rejected-ne-params e)
check_params-HasParams value (v ∷ []) ps e = check_value-HasParams (to_lower (trim_space v)) ps e
check_params-HasParams value (v ∷ w ∷ vs) ps e = absurd (rejected-ne-params e)

built-spec : {s t : CommandSpec} {a b : Bytes} → built s a ≡ built t b → (s ≡ t) × (a ≡ b)
built-spec e = (cc, cc)

refused-ne-built : {e : CommandError} {s : CommandSpec} {b : Bytes} → refused e ≡ built s b → ⊥
refused-ne-built e = ground arith

module _ (marshal : CommandPayload → Option Bytes) where
  abbrev Sends : CommandSpec → Bytes → Type 0
  Sends spec body = (p : CommandPayload) × IsAllowed spec p × (marshal p ≡ some body)

  body_of :
      (s spec : CommandSpec) (body : Bytes) (o : Option Bytes)
      → elim o as (λ _. Built) [ none ↦ refused unmarshalable | some b ↦ built s b ]
        ≡ built spec body
      → (s ≡ spec) × (o ≡ some body)
  body_of s spec body none e = absurd (refused-ne-built e)
  body_of s spec body (some b) e = ((built-spec e).0, ap some (built-spec e).1)

  rendered :
      (s spec : CommandSpec) (address : ℤ) (ps : List Bytes) (body : Bytes)
      → render marshal s address (params ps) ≡ built spec body
      → (s ≡ spec)
        × (marshal
              (record { target = s.target; command = s.command; address = address; params = ps })
            ≡ some body)
  unfolding render
  rendered s spec address ps body e = body_of s spec body _ e

  Sends-of :
      (req : CommandRequest) (s spec : CommandSpec) (body : Bytes) (place : ℕ)
      (a : Option CommandError) (q : Params)
      → get_elem? command_catalogue place ≡ some s
      → address_error s req.address ≡ a
      → check_params s.param req.params ≡ q
      → elim a as (λ _. Built) [ some e ↦ refused e | none ↦ render marshal s req.address q ]
        ≡ built spec body
      → Sends spec body
  unfolding render
  Sends-of req s spec body place (some err) q at a_eq q_eq e = absurd (refused-ne-built e)
  Sends-of req s spec body place none (rejected err) at a_eq q_eq e = absurd (refused-ne-built e)
  Sends-of req s spec body place none (params ps) at a_eq q_eq e =
      let (same, coded) = rendered s spec req.address ps body e in
      let (n, address, bounds) = address_error-bounds s req.address a_eq in
      subst (λ t. Sends t body) same
        (
          record { target = s.target; command = s.command; address = req.address; params = ps },
          record {
            place = place;
            listed = at;
            target = refl;
            command = refl;
            address = n;
            addressed = address;
            bounded = bounds;
            parameters = check_params-HasParams s.param req.params ps q_eq;
          },
          coded,
        )

  build_for-Sends :
      (req : CommandRequest) (o : Option CommandSpec) (spec : CommandSpec) (body : Bytes)
      → ((s : CommandSpec) → o ≡ some s → (i : ℕ) × (get_elem? command_catalogue i ≡ some s))
      → build_for marshal req o ≡ built spec body
      → Sends spec body
  unfolding build_for
  build_for-Sends req none spec body place e = absurd (refused-ne-built e)
  build_for-Sends req (some s) spec body place e =
      let (i, at) = place s refl in
      Sends-of req s spec body i (address_error s req.address) (check_params s.param req.params) at
        refl refl e

  -- What is built for a request is a command of the catalogue, with an address in its bounds and its
  -- parameter in the one form that the PLC reads, whatever the request holds.
  pub build_command-IsAllowed :
      (req : CommandRequest) (spec : CommandSpec) (body : Bytes)
      → build_command marshal req ≡ built spec body
      → (p : CommandPayload) × IsAllowed spec p × (marshal p ≡ some body)
  unfolding build_command lookup_command
  build_command-IsAllowed req spec body e =
      build_for-Sends req _ spec body
        (find_command-listed (trim_space req.target) (trim_space req.command) command_catalogue) e
