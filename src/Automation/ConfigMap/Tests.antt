-- ===== src/Automation/ConfigMap/Tests.antt =====
-- A ConfigMap on a server in memory.
use polygate.Prelude.{
  ℕ, ◌+◌, ◌≡◌, ◌≢◌, refl, ap, ◌⊎◌, inl, inr, true, false, Option, none, some, [], ◌∷◌, leb, ◌==◌,
  arith, if◌then◌else◌, Bool-cases,
}
use polygate.Automation.Versions.{Status, Document}
use polygate.Automation.Repository.{Snapshot, conflict}
use polygate.Automation.ConfigMap.{
  ConfigMapApi, Body, not_object, object_of, HttpReply, http_error, http_response, swap_config_map,
  Swaps, swap_config_map-Swaps, request,
}

abbrev next : Document ℕ → ℕ → Snapshot ℕ
next d r = record { document = d; revision = r + 1 }

-- A server that stores at the current revision and answers 409 otherwise.
abbrev put_here : Document ℕ → ℕ → Snapshot ℕ → HttpReply ℕ × Snapshot ℕ
put_here d r s =
    if s.revision == r
    then (http_response 200 (object_of (some (r + 1)) none), next d r)
    else (http_response 409 not_object, s)

abbrev get_here : Snapshot ℕ → HttpReply ℕ
get_here s = http_response 200 (object_of (some s.revision) (some (some s.document)))

pub got :
    (s : Snapshot ℕ) (code r : ℕ) (d : Document ℕ)
    → get_here s ≡ http_response code (object_of (some r) (some (some d)))
    → leb 400 code ≡ false
    → record { document = d; revision = r } ≡ s
got s code r d e m = let a : s.revision ≡ r = cc in let b : s.document ≡ d = cc in cc

pub accepted_here :
    (d : Document ℕ) (r : ℕ) (s : Snapshot ℕ) (code r' : ℕ) (x : Option (Option (Document ℕ)))
    → (put_here d r s).0 ≡ http_response code (object_of (some r') x)
    → leb 400 code ≡ false
    → (s.revision ≡ r) × ((put_here d r s).1 ≡ record { document = d; revision = r' })
accepted_here d r s code r' x e m = elim (Bool-cases (s.revision == r)) [
  | inl y ↦
      let f : http_response 200 (object_of (some (r + 1)) none)
          ≡ http_response code (object_of (some r') x) =
        rw y at e in
      let g : r + 1 ≡ r' = cc in
      (ground arith, rw y (ap (λ n. record { document = d; revision = n }) g))
  | inr n ↦
      let f : http_response 409 not_object ≡ http_response code (object_of (some r') x) =
        rw n at e in
      cc
]

code_of : HttpReply ℕ → ℕ
code_of http_error = 0
code_of (http_response code _) = code

pub refused_here :
    (d : Document ℕ) (r : ℕ) (s : Snapshot ℕ) (body : Body ℕ)
    → (put_here d r s).0 ≡ http_response 409 body
    → (put_here d r s).1 ≡ s
unfolding code_of
refused_here d r s body e = elim (Bool-cases (s.revision == r)) [
  | inl y ↦
      let f : http_response 200 (object_of (some (r + 1)) none) ≡ http_response 409 body =
        rw y at e in
      let g : ◌≡◌ {A = ℕ} 200 409 = ap code_of f in absurd (omega arith)
  | inr n ↦ rw n refl
]

pub done_or_not_here :
    (d : Document ℕ) (r : ℕ) (s : Snapshot ℕ)
    → ((put_here d r s).1 ≡ s) ⊎ ((s.revision ≡ r) × (((put_here d r s).1).document ≡ d))
done_or_not_here d r s = elim (Bool-cases (s.revision == r)) [
  | inl y ↦ inr (ground arith, rw y refl)
  | inr n ↦ inl (rw n refl)
]

pub fresh_here :
    (d : Document ℕ) (r : ℕ) (s : Snapshot ℕ)
    → ((put_here d r s).1 ≡ s) ⊎ (((put_here d r s).1).revision ≢ s.revision)
fresh_here d r s = elim (Bool-cases (s.revision == r)) [
  | inl y ↦ inr (λ e. let f : r + 1 ≡ s.revision = rw y at e in ground arith)
  | inr n ↦ inl (rw n refl)
]

abbrev pub server : ConfigMapApi ℕ
server = record {
  Server = Snapshot ℕ;
  holds = λ s. s;
  has_token = λ s. true;
  get = get_here;
  put = put_here;
  get_lem = got;
  put_accepted = accepted_here;
  put_conflict = refused_here;
  put_done_or_not = done_or_not_here;
}

abbrev one_version : Document ℕ
one_version = record {
  active_version = 1;
  versions =
      record {
        version = 1;
        status = Status.active;
        created_at = 0;
        created_by = "bootstrap";
        change_note = "defaults";
        rollback_from = none;
        policy = 10;
      }
      ∷ [];
}

abbrev held : Snapshot ℕ
held = record { document = one_version; revision = 7 }

swap_config_map-Swaps_example :
    Swaps ℕ server one_version 6 held (swap_config_map ℕ server one_version 6 held)
swap_config_map-Swaps_example = swap_config_map-Swaps ℕ server one_version 6 held

stale_conflicts : swap_config_map ℕ server one_version 6 held ≡ (conflict, held)
unfolding swap_config_map request
stale_conflicts = refl
