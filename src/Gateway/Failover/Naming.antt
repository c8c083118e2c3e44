-- ===== src/Gateway/Failover/Naming.antt =====
-- What naming a provider asks of it: `_forced_provider` (gateway/app/main.py).
use polygate.Prelude.{
  ◌≡◌, ◌≢◌, refl, subst, sym, ap, ◌∙◌, inl, inr, ◌↔◌, Bool, true, false, Option, none, some, List,
  [], ◌∷◌, String, first, str_eq, Bool-cases,
}
use polygate.Prelude.Floats.{Floats}
use polygate.Gateway.Router.{Provider, Privacy, is_text}
use polygate.Gateway.Router.Select.{missing_capabilities}
use polygate.Gateway.Router.Gates.{is_text_iff}
use polygate.Gateway.Failover.{
  named, Reply, reply, refuse, Request, forced_provider, check_forced, answer_forced, is_leak,
  unknown_provider,
}

module _ (fl : Floats) (providers : List (Provider fl)) (req : Request fl) where
  -- What naming a provider asks for.
  abbrev pub IsAccepted : String → Provider fl → Type 0
  IsAccepted n p =
      (first (λ (x : Provider fl). str_eq x.name n) providers ≡ some p)
      × (req.constraints.privacy ≡ Privacy.high → p.privacy ≢ some "external")
      × (missing_capabilities fl p req.required_capabilities ≡ [])

  answered :
      (q p : Provider fl) (leak : Bool) (missing : List String)
      → (answer_forced fl providers q leak missing ≡ reply p)
        ↔ ((q ≡ p) × (leak ≡ false) × (missing ≡ []))
  answered q p true missing = (λ h. cc, λ h. cc)
  answered q p false [] = (λ h. (cc, refl, refl), λ (e, _, _). ap reply e)
  answered q p false (m ∷ ms) = (λ h. cc, λ h. cc)

  no_leak :
      (pr : Privacy) (label : Option String)
      → (is_leak fl providers pr label ≡ false) ↔ (pr ≡ Privacy.high → label ≢ some "external")
  no_leak Privacy.standard label = (λ h. λ e. cc, λ h. refl)
  no_leak Privacy.high label = (
    λ h _ e. let y : is_text "external" label ≡ true = (is_text_iff "external" label).1 e in cc,
    λ h. elim (Bool-cases (is_text "external" label)) [
      | inl y ↦ absurd (h refl ((is_text_iff "external" label).0 y))
      | inr n ↦ n
    ],
  )

  check_forced_ok :
      (q p : Provider fl)
      → (check_forced fl providers req q ≡ reply p) ↔ (
          (q ≡ p)
          × (req.constraints.privacy ≡ Privacy.high → p.privacy ≢ some "external")
          × (missing_capabilities fl p req.required_capabilities ≡ []))
  check_forced_ok q p = (
    λ h.
        let (e, l, m) = (answered q p _ _).0 h in
        subst
          (λ x.
            (q ≡ x)
            × (req.constraints.privacy ≡ Privacy.high → x.privacy ≢ some "external")
            × (missing_capabilities fl x req.required_capabilities ≡ []))
          e (refl, (no_leak req.constraints.privacy q.privacy).0 l, m),
    λ (e, l, m). (answered q p _ _).1 (
        subst
          (λ x.
            (q ≡ p)
            × (is_leak fl providers req.constraints.privacy x.privacy ≡ false)
            × (missing_capabilities fl x req.required_capabilities ≡ []))
          (sym e) (e, (no_leak req.constraints.privacy p.privacy).1 l, m)),
  )

  wrapped :
      (r : Reply (Provider fl)) (p : Provider fl)
      → (elim r [ reply q ↦ reply (some q) | refuse e ↦ refuse e ]) ≡ reply (some p)
      → r ≡ reply p
  wrapped (reply q) p h = cc
  wrapped (refuse e) p h = cc

  found :
      (n : String) (o : Option (Provider fl)) (p : Provider fl)
      → (elim o [
        | none ↦ refuse unknown_provider
        | some q ↦ elim (check_forced fl providers req q) [
          | reply r ↦ reply (some r)
          | refuse e ↦ refuse e
        ]
      ])
        ≡ reply (some p)
      → (q : Provider fl) × (o ≡ some q) × (check_forced fl providers req q ≡ reply p)
  found n none p h = cc
  found n (some q) p h = (q, refl, wrapped (check_forced fl providers req q) p h)

  -- A named provider is accepted exactly if it is the first of its name, has the required
  -- capabilities, and, if privacy is high, is not labelled "external"; whether it is "internal", as
  -- the router asks, is not looked at.
  pub forced_provider_iff :
      (n : String) (p : Provider fl)
      → req.model ≡ named n
      → (forced_provider fl providers req ≡ reply (some p)) ↔ IsAccepted n p
  unfolding forced_provider
  forced_provider_iff n p m = (
    λ h.
        let (q, f, c) =
          found n (first (λ (x : Provider fl). str_eq x.name n) providers) p
            (rw (m, forced_provider) at h) in
        let (e, l, k) = (check_forced_ok q p).0 c in (f ∙ ap some e, l, k),
    λ (a, b, c).
        let k = (check_forced_ok p p).1 (refl, b, c) in
        rw (m, forced_provider) (rw (a, forced_provider) (rw (k, forced_provider) refl)),
  )
