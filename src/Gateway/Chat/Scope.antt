-- ===== src/Gateway/Chat/Scope.antt =====
-- The scope of a key and the entries found under a key (gateway/app/main.py).
use polygate.Prelude.{
  ◌≡◌, refl, sym, ap, ◌∙◌, subst, inl, inr, Bool, true, false, Option, none, some, List, [], ◌∷◌,
  All, String, Text, codes, text_eq, text_eq_iff, first, In-first, str_eq, str_eq_iff, Bool-cases,
}
use polygate.Prelude.Floats.{Floats}
use polygate.Gateway.Router.{Provider}
use polygate.Gateway.Failover.{
  unknown_provider, Request, Reply, reply, refuse, forced_provider, check_forced, answer_forced,
}
use polygate.Gateway.Requests.{GatewayRequest}
use polygate.Gateway.Chat.{Answer, Entries, find_entry, scope_of, routing_request}

-- What holds of all entries holds of the one that is found.
pub found_entry {κ} :
    (P : Text × Answer → Type κ) (key : Text) (entries : Entries) (a : Answer)
    → All P entries
    → find_entry key entries ≡ some a
    → P (key, a)
unfolding find_entry
found_entry P key [] a h e = cc
found_entry P key ((k, b) ∷ entries) a (p, h) e = elim (Bool-cases (text_eq k key)) [
  | inl y ↦
      let f : b ≡ a = some-eq (rw y at e) in
      subst (λ x. P (x, a)) ((text_eq_iff k key).0 y) (subst (λ x. P (k, x)) f p)
  | inr n ↦ found_entry P key entries a h (rw n at e)
]
  where
    some-eq : {x y : Answer} → some x ≡ some y → x ≡ y
    some-eq h = cc

reply-eq : {A : Type 0} {a b : A} → reply a ≡ reply b → a ≡ b
reply-eq h = cc

module _ (fl : Floats) (providers : List (Provider fl)) where
  forced_name :
      (p q : Provider fl) (leak : Bool) (missing : List String)
      → answer_forced fl providers p leak missing ≡ reply q
      → q ≡ p
  forced_name p q true missing h = cc
  forced_name p q false [] h = cc
  forced_name p q false (m ∷ ms) h = cc

  wrapped_result :
      (c : Reply (Provider fl)) (x : Option (Provider fl))
      → (elim c [ reply q ↦ reply (some q) | refuse e ↦ refuse e ]) ≡ reply x
      → (q : Provider fl) × (c ≡ reply q) × (x ≡ some q)
  wrapped_result (reply q) x h = (q, refl, sym (reply-eq h))
  wrapped_result (refuse e) x h = cc

  -- What naming a provider is answered by: the provider that was found, or an error.
  named_result :
      (req : Request fl) (o x : Option (Provider fl))
      → (elim o [
        | none ↦ refuse unknown_provider
        | some q ↦ elim (check_forced fl providers req q) [
          | reply r ↦ reply (some r)
          | refuse e ↦ refuse e
        ]
      ])
        ≡ reply x
      → (q : Provider fl) × (o ≡ some q) × (x ≡ some q)
  named_result req none x h = cc
  named_result req (some q) x h =
      let (c, e, f) = wrapped_result (check_forced fl providers req q) x h in
      let same : c ≡ q = forced_name q c _ _ e in (q, refl, f ∙ ap some same)

  -- The scope of a key is the model of the request.
  pub scope_of-model :
      (r : GatewayRequest fl) (o : Option (Provider fl))
      → forced_provider fl providers (routing_request fl r) ≡ reply o
      → scope_of fl providers o ≡ codes r.model
  unfolding forced_provider routing_request
  scope_of-model r o h = elim (Bool-cases (str_eq r.model "auto")) [
    | inl y ↦
        let e : reply none ≡ reply o = rw (y, forced_provider) at h in
        let f : none ≡ o = reply-eq e in
        subst (λ x. scope_of fl providers x ≡ codes r.model) f
          (ap codes (sym ((str_eq_iff r.model "auto").0 y)))
    | inr n ↦
        let (q, found, same) =
          named_result (routing_request fl r)
            (first (λ (p : Provider fl). str_eq p.name r.model) providers) o
            (rw (n, forced_provider) at h) in
        let name : q.name ≡ r.model =
          (str_eq_iff q.name r.model).0
            (In-first (λ (p : Provider fl). str_eq p.name r.model) q providers found).1 in
        subst (λ x. scope_of fl providers x ≡ codes r.model) (sym same) (ap codes name)
  ]
