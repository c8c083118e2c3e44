-- ===== src/Automation/ConfigMap.antt =====
-- The repository in a ConfigMap: `KubernetesConfigMapPolicyRepository`
-- (automation/app/kubernetes_policy_repository.py), over the Kubernetes API as an interface.
pub mod Tests
use polygate.Prelude.{
  ℕ, ◌+◌, ◌≡◌, ◌≢◌, refl, sym, ap, subst, ◌∙◌, ◌⊎◌, inl, inr, Bool, true, false, not, Option, none,
  some, leb, ltb, ◌==◌, arith, if◌then◌else◌, Bool-cases,
}
use polygate.Automation.Versions.{Document}
use polygate.Automation.Repository.{
  Snapshot, Loaded, loaded, load_failed, Swapped, swapped, conflict, no_answer, Repository,
  ChangesRevision,
}

module _ (Draft : Type 0) where
  -- The body of a response: its resourceVersion if that is a text, and the text under the key if
  -- there is one, parsed as a document or not.
  pub data Body : Type 0 where
    not_json not_object : Body
    object_of : Option ℕ → Option (Option (Document Draft)) → Body

  pub data HttpReply : Type 0 where
    http_error : HttpReply
    http_response : ℕ → Body → HttpReply

  -- The API server: what the ConfigMap holds, whether the token can be read, GET and PUT. The laws
  -- are those of its optimistic locking: a PUT that is accepted had the current resourceVersion, one
  -- that is answered by 409 changes nothing, and any PUT is done or changes nothing.
  pub record ConfigMapApi : Type 1 where
    pub Server : Type 0
    pub holds : Server → Snapshot Draft
    pub has_token : Server → Bool
    pub get : Server → HttpReply
    pub put : Document Draft → ℕ → Server → HttpReply × Server
    pub get_lem :
        (s : Server) (code r : ℕ) (d : Document Draft)
        → get s ≡ http_response code (object_of (some r) (some (some d)))
        → leb 400 code ≡ false
        → record { document = d; revision = r } ≡ holds s
    pub put_accepted :
        (d : Document Draft) (r : ℕ) (s : Server) (code r' : ℕ)
        (data_of : Option (Option (Document Draft)))
        → (put d r s).0 ≡ http_response code (object_of (some r') data_of)
        → leb 400 code ≡ false
        → ((holds s).revision ≡ r) × (holds (put d r s).1 ≡ record { document = d; revision = r' })
    pub put_conflict :
        (d : Document Draft) (r : ℕ) (s : Server) (body : Body)
        → (put d r s).0 ≡ http_response 409 body
        → holds (put d r s).1 ≡ holds s
    pub put_done_or_not :
        (d : Document Draft) (r : ℕ) (s : Server)
        → (holds (put d r s).1 ≡ holds s)
          ⊎ (((holds s).revision ≡ r) × ((holds (put d r s).1).document ≡ d))

  -- A PUT that changes the object changes its resourceVersion.
  abbrev pub HasFreshVersions : ConfigMapApi → Type 0
  HasFreshVersions api =
      (d : Document Draft) (r : ℕ) (s : api.Server)
      → (api.holds (api.put d r s).1 ≡ api.holds s)
        ⊎ ((api.holds (api.put d r s).1).revision ≢ (api.holds s).revision)

  -- `_request` behind the token, and `_json_object`: a conflict, a failure (RepositoryCorrupt
  -- is one), or the fields of an object.
  pub data Requested : Type 0 where
    revision_conflict unavailable : Requested
    fields : Option ℕ → Option (Option (Document Draft)) → Requested

  abbrev pub json_object : Body → Requested
  json_object not_json = unavailable
  json_object not_object = unavailable
  json_object (object_of r d) = fields r d

  unfoldable pub request : HttpReply → Requested
  request http_error = unavailable
  request (http_response code body) =
      if code == 409
      then revision_conflict
      else if leb 400 code
      then unavailable
      else json_object body

  -- The end of `load`; a conflict, which a GET is not answered by, fails too.
  abbrev pub read_fields : Requested → Loaded Draft
  read_fields revision_conflict = load_failed
  read_fields unavailable = load_failed
  read_fields (fields none d) = load_failed
  read_fields (fields (some r) none) = load_failed
  read_fields (fields (some r) (some none)) = load_failed
  read_fields (fields (some r) (some (some d))) = loaded (record { document = d; revision = r })

  -- The end of `compare_and_swap`.
  abbrev pub swap_fields : Document Draft → Requested → Swapped Draft
  swap_fields d revision_conflict = conflict
  swap_fields d unavailable = no_answer
  swap_fields d (fields none x) = no_answer
  swap_fields d (fields (some r) x) = swapped (record { document = d; revision = r })

  module _ (api : ConfigMapApi) where
    open api use {Server, holds, has_token, get, put}

    -- `load`
    unfoldable pub load_config_map : Server → Loaded Draft
    unfolding request
    load_config_map s = if has_token s then read_fields (request (get s)) else load_failed

    -- `compare_and_swap`
    unfoldable pub swap_config_map : Document Draft → ℕ → Server → Swapped Draft × Server
    unfolding request
    swap_config_map d r s =
        if has_token s
        then (swap_fields d (request (put d r s).0), (put d r s).1)
        else (no_answer, s)

    read_object :
        (s : Server) (snap : Snapshot Draft) (code : ℕ) (body : Body)
        → get s ≡ http_response code body
        → leb 400 code ≡ false
        → read_fields (json_object body) ≡ loaded snap
        → snap ≡ holds s
    read_object s snap code not_json e m h = cc
    read_object s snap code not_object e m h = cc
    read_object s snap code (object_of none d) e m h = cc
    read_object s snap code (object_of (some r) none) e m h = cc
    read_object s snap code (object_of (some r) (some none)) e m h = cc
    read_object s snap code (object_of (some r) (some (some d))) e m h =
        let same : record { document = d; revision = r } ≡ snap = cc in
        sym same ∙ api.get_lem s code r d e m

    read_reply :
        (s : Server) (snap : Snapshot Draft) (reply : HttpReply)
        → get s ≡ reply
        → read_fields (request reply) ≡ loaded snap
        → snap ≡ holds s
    unfolding request
    read_reply s snap http_error e h = cc
    read_reply s snap (http_response code body) e h = elim (Bool-cases (code == 409)) [
      | inl y ↦ let k : load_failed ≡ loaded snap = rw y at h in cc
      | inr n ↦ elim (Bool-cases (leb 400 code)) [
        | inl y ↦ let k : load_failed ≡ loaded snap = rw y at (rw n at h) in cc
        | inr m ↦ read_object s snap code body e m (rw m at (rw n at h))
      ]
    ]

    -- What is read is what the ConfigMap holds.
    pub load_config_map-holds :
        (s : Server) (snap : Snapshot Draft) → load_config_map s ≡ loaded snap → snap ≡ holds s
    unfolding load_config_map request
    load_config_map-holds s snap h = elim (Bool-cases (has_token s)) [
      | inl y ↦ read_reply s snap (get s) refl (rw y at h)
      | inr n ↦ let k : load_failed ≡ loaded snap = rw n at h in cc
    ]

    -- What a swap answers is so: a swap that returns was made at the expected revision and stored the
    -- document, one that conflicts changed nothing, and one without an answer, its token unread, its
    -- response an error or malformed, stored the document or changed nothing.
    abbrev pub Swaps : Document Draft → ℕ → Server → Swapped Draft × Server → Type 0
    Swaps d r s (swapped snap, t) =
        ((holds s).revision ≡ r) × (snap.document ≡ d) × (holds t ≡ snap)
    Swaps d r s (conflict, t) = holds t ≡ holds s
    Swaps d r s (no_answer, t) =
        (holds t ≡ holds s) ⊎ (((holds s).revision ≡ r) × ((holds t).document ≡ d))

    accepted :
        (d : Document Draft) (r : ℕ) (s : Server) (code : ℕ) (body : Body)
        → leb 400 code ≡ false
        → (put d r s).0 ≡ http_response code body
        → Swaps d r s (swap_fields d (json_object body), (put d r s).1)
    accepted d r s code not_json m e = api.put_done_or_not d r s
    accepted d r s code not_object m e = api.put_done_or_not d r s
    accepted d r s code (object_of none x) m e = api.put_done_or_not d r s
    accepted d r s code (object_of (some q) x) m e =
        let (a, b) = api.put_accepted d r s code q x e m in (a, refl, b)

    put-Swaps :
        (d : Document Draft) (r : ℕ) (s : Server) (reply : HttpReply)
        → (put d r s).0 ≡ reply
        → Swaps d r s (swap_fields d (request reply), (put d r s).1)
    unfolding request
    put-Swaps d r s http_error e = api.put_done_or_not d r s
    put-Swaps d r s (http_response code body) e = elim (Bool-cases (code == 409)) [
      | inl y ↦
          let same : code ≡ 409 = ground arith in
          let f : (put d r s).0 ≡ http_response 409 body =
            subst (λ n. (put d r s).0 ≡ http_response n body) same e in
          rw (y, request, Swaps) (api.put_conflict d r s body f)
      | inr n ↦ elim (Bool-cases (leb 400 code)) [
        | inl y ↦ rw (n, request, Swaps) (rw (y, Swaps) (api.put_done_or_not d r s))
        | inr m ↦ rw (n, request, Swaps) (rw (m, Swaps) (accepted d r s code body m e))
      ]
    ]

    asked :
        (d : Document Draft) (r : ℕ) (s : Server)
        → has_token s ≡ true
        → swap_config_map d r s ≡ (swap_fields d (request (put d r s).0), (put d r s).1)
    unfolding swap_config_map
    asked d r s y = rw (y, swap_config_map) refl

    unasked :
        (d : Document Draft) (r : ℕ) (s : Server)
        → has_token s ≡ false
        → swap_config_map d r s ≡ (no_answer, s)
    unfolding swap_config_map
    unasked d r s n = rw (n, swap_config_map) refl

    -- Storing a document in the ConfigMap, on every branch of the call. When the answer is a new
    -- revision, the ConfigMap was at the expected revision and now holds the document at the
    -- answered one. When it is a conflict, the ConfigMap is as it was. On every other failure it is
    -- as it was, or it was at the expected revision and now holds the document.
    pub swap_config_map-Swaps :
        (d : Document Draft) (r : ℕ) (s : Server) → Swaps d r s (swap_config_map d r s)
    unfolding swap_config_map
    swap_config_map-Swaps d r s = elim (Bool-cases (has_token s)) [
      | inl y ↦ subst (Swaps d r s) (sym (asked d r s y)) (put-Swaps d r s (put d r s).0 refl)
      | inr n ↦ subst (Swaps d r s) (sym (unasked d r s n)) (inl refl)
    ]

    -- So the ConfigMap is a repository as the manager wants it.
    pub swap_by_answer :
        (d : Document Draft) (r : ℕ) (s : Server) (a : Swapped Draft)
        → (swap_config_map d r s).0 ≡ a
        → Swaps d r s (a, (swap_config_map d r s).1)
    swap_by_answer d r s a e =
        subst (λ x. Swaps d r s (x, (swap_config_map d r s).1)) e (swap_config_map-Swaps d r s)

    abbrev pub config_map : Repository Draft
    config_map = record {
      Store = Server;
      contents = holds;
      load = load_config_map;
      compare_and_swap = swap_config_map;
      load_lem = load_config_map-holds;
      swapped_lem = λ d r s snap e. swap_by_answer d r s (swapped snap) e;
      conflict_lem = λ d r s e. swap_by_answer d r s conflict e;
      no_answer_lem = λ d r s e. swap_by_answer d r s no_answer e;
    }

    pub config_map-ChangesRevision : HasFreshVersions api → ChangesRevision Draft config_map
    config_map-ChangesRevision fresh d r s = elim (Bool-cases (has_token s)) [
      | inl y ↦ subst IsFresh (sym (asked d r s y)) (fresh d r s)
      | inr n ↦ subst IsFresh (sym (unasked d r s n)) (inl refl)
    ]
      where
        IsFresh : Swapped Draft × Server → Type 0
        IsFresh x = (holds x.1 ≡ holds s) ⊎ ((holds x.1).revision ≢ (holds s).revision)
