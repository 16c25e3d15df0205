-- ===== src/Clients/Providers/Lookup.antt =====
-- The registry as a map (clients/providers/registry.go).
use rvpay_go.Base.{
  String, false, some, Option, [], ◌∷◌, List, ◌≡◌, refl, str_eq, arith, if◌then◌else◌, Bool-cases,
  inl, inr, ap, eq_iff,
}
use rvpay_go.Clients.Providers.{Provider, Registry, register, get}

-- What the registry has under an identifier after a list of registrations: the last of them with it.
abbrev pub latest : String → List Provider → Option Provider → Option Provider
latest id [] found = found
latest id (p ∷ ps) found = latest id ps (if str_eq p.id id then some p else found)

abbrev pub register_all : List Provider → Registry → Registry
register_all [] r = r
register_all (p ∷ ps) r = register_all ps (register p r)

get-register :
    (id : String) (p : Provider) (r : Registry)
    → get id (register p r) ≡ (if str_eq p.id id then some p else get id r)
unfolding get register
get-register id p [] = refl
get-register id p ((k, q) ∷ rest) = elim (Bool-cases (str_eq k p.id)) [
  | inl e ↦
      let same : str_eq k id ≡ str_eq p.id id =
        ap (λ x. str_eq x id) (ground (arith, eq_iff k p.id)) in
      rw e (ground arith)
  | inr n ↦ elim (Bool-cases (str_eq k id)) [
    | inl t ↦
        let other : str_eq p.id id ≡ false =
          ground (arith, eq_iff k id, eq_iff p.id id, eq_iff k p.id) in
        rw (n, t, other) refl
    | inr f ↦ let before = get-register id p rest in rw (n, f, before) refl
  ]
]

-- After any registrations, in any order and with any repetitions, `Get` finds the provider that was
-- registered last under the identifier, and what was there before where there was none.
pub get-register_all :
    (id : String) (ps : List Provider) (r : Registry)
    → get id (register_all ps r) ≡ latest id ps (get id r)
get-register_all id [] r = refl
get-register_all id (p ∷ ps) r =
    rw (get-register_all id ps (register p r), get-register id p r) refl
