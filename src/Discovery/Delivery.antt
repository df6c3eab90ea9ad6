-- ===== src/Discovery/Delivery.antt =====
-- What the samples of discovery do to the graph, and how the discovery thread ends.
use rmw_connextdds.Prelude.{
  ◌≡◌, ◌≢◌, refl, sym, ◌∙◌, ap, Bool, true, false, ◌&&◌, inl, inr, Bool-cases, List, [], ◌∷◌, ◌++◌,
  append-nil, none, All, if◌then◌else◌,
}
use rmw_connextdds.Names.Text.{text_eq, text_eq_self, text_eq→eq}
use rmw_connextdds.Ret.{Ret, is_ok}
use rmw_connextdds.Endpoint.Identity.{guid_to_gid, ih_to_gid}
use rmw_connextdds.Graph.Cache.{GraphCache, Context, remove_entity}
use rmw_connextdds.Graph.Undo.{Undoes, add_entity-Added}
use rmw_connextdds.Discovery.Samples.{
  Learning, Sample, valid, invalid, InstanceState, Batch, ParticipantData, EndpointData,
  for_samples, on_data, key_to_gid, on_participant, on_endpoint, add_remote_entity,
  participant_on_data, publication_on_data, subscription_on_data,
}

module _ {ℓ} {A : Type ℓ} where
  -- The samples that a call is given: those of its takes, up to the first whose loan stays.
  abbrev pub delivered : List (Batch A) → List A
  delivered [] = []
  delivered (b ∷ bs) = b.samples ++ (if b.return_loan then delivered bs else [])

  abbrev pub all_returned : List (Batch A) → Bool
  all_returned [] = true
  all_returned (b ∷ bs) = b.return_loan && all_returned bs

  -- What a call has to do with them.
  abbrev pub handled {κ} : {S : Type κ} → (A → S → S) → List (Batch A) → S → Ret × S
  handled body bs s =
      (if all_returned bs then Ret.ok else Ret.error, for_samples body (delivered bs) s)

  for_samples-append {κ} :
      {S : Type κ} (body : A → S → S) (xs ys : List A) (s : S)
      → for_samples body (xs ++ ys) s ≡ for_samples body ys (for_samples body xs s)
  for_samples-append body [] ys s = refl
  for_samples-append body (x ∷ xs) ys s = for_samples-append body xs ys (body x s)

  on_data_lem {κ} :
      {S : Type κ} (body : A → S → S) (bs : List (Batch A)) (s : S)
      → on_data body bs s ≡ handled body bs s
  unfolding on_data
  on_data_lem body [] s = refl
  on_data_lem body (b ∷ bs) s = elim (Bool-cases b.return_loan) [
    | inl e ↦
        rw (on_data, e)
          (on_data_lem body bs (for_samples body b.samples s)
            ∙ ap (λ z. (if all_returned bs then Ret.ok else Ret.error, z))
                (sym (for_samples-append body b.samples (delivered bs) s)))
    | inr e ↦
        rw (on_data, e) (ap (λ xs. (Ret.error, for_samples body xs s)) (sym (append-nil b.samples)))
  ]

module _ (C : GraphCache) (L : Learning C) where
  -- The three functions that read the built-in topics handle, in order, the samples of their takes up
  -- to the first take whose loan cannot be returned, and fail exactly if there is one.
  pub publication_on_data-handled :
      (ctx : Context C)
      → ((bs : List (Batch (Sample ParticipantData)))
          → participant_on_data C L bs ctx ≡ handled (on_participant C L) bs ctx)
        × ((bs : List (Batch (Sample EndpointData)))
            → (publication_on_data C L bs ctx ≡ handled (on_endpoint C L false) bs ctx)
              × (subscription_on_data C L bs ctx ≡ handled (on_endpoint C L true) bs ctx))
  unfolding participant_on_data publication_on_data subscription_on_data
  publication_on_data-handled ctx = (
    λ bs. on_data_lem (on_participant C L) bs ctx,
    λ bs. (on_data_lem (on_endpoint C L false) bs ctx, on_data_lem (on_endpoint C L true) bs ctx),
  )

  -- A sample about an endpoint of this participant, or one without data of an instance that is alive.
  abbrev pub IsOwn : Context C → Sample EndpointData → Type 0
  IsOwn ctx (valid d) = (key_to_gid C L d.participant_key).bytes ≡ ctx.gid.bytes
  IsOwn ctx (invalid InstanceState.alive handle) = Unit
  IsOwn ctx (invalid InstanceState.not_alive_disposed handle) = ⊥
  IsOwn ctx (invalid InstanceState.not_alive_no_writers handle) = ⊥

  on_endpoint-own :
      (is_reader : Bool) (x : Sample EndpointData) (ctx : Context C)
      → IsOwn ctx x
      → on_endpoint C L is_reader x ctx ≡ ctx
  unfolding on_endpoint add_remote_entity
  on_endpoint-own is_reader (valid d) ctx o =
      let e : text_eq (key_to_gid C L d.participant_key).bytes ctx.gid.bytes ≡ true =
        ap (λ b. text_eq b ctx.gid.bytes) o ∙ text_eq_self ctx.gid.bytes in
      rw (on_endpoint, add_remote_entity, e) refl
  on_endpoint-own is_reader (invalid InstanceState.alive handle) ctx o = refl
  on_endpoint-own is_reader (invalid InstanceState.not_alive_disposed handle) ctx o = absurd o
  on_endpoint-own is_reader (invalid InstanceState.not_alive_no_writers handle) ctx o = absurd o

  for_samples-own :
      (is_reader : Bool) (xs : List (Sample EndpointData)) (ctx : Context C)
      → All (IsOwn ctx) xs
      → for_samples (on_endpoint C L is_reader) xs ctx ≡ ctx
  for_samples-own is_reader [] ctx a = refl
  for_samples-own is_reader (x ∷ xs) ctx (o, a) =
      rw (on_endpoint-own is_reader x ctx o) (for_samples-own is_reader xs ctx a)

  -- Where every sample of which they are given is about an endpoint of this participant, or has no
  -- data and an instance that is alive, reading the publications and reading the subscriptions change
  -- nothing of the graph.
  pub publication_on_data-own :
      (bs : List (Batch (Sample EndpointData))) (ctx : Context C)
      → All (IsOwn ctx) (delivered bs)
      → ((publication_on_data C L bs ctx).1 ≡ ctx) × ((subscription_on_data C L bs ctx).1 ≡ ctx)
  publication_on_data-own bs ctx a =
      let (x, y) = (publication_on_data-handled ctx).1 bs in
      (
        ap (λ r. r.1) x ∙ for_samples-own false (delivered bs) ctx a,
        ap (λ r. r.1) y ∙ for_samples-own true (delivered bs) ctx a,
      )

  remote_key :
      (d : EndpointData)
      → ih_to_gid C.identifier C.gid_storage_size (L.builtin_topic_key_to_guid d.key)
        ≡ key_to_gid C L d.key
  unfolding guid_to_gid ih_to_gid
  remote_key d = refl

  -- An endpoint of another participant that is announced and added, and whose instance, with the
  -- handle that its key stands for, is then disposed of, leaves the cache as it was, where the cache
  -- takes back what it added.
  pub on_endpoint-disposed :
      (U : Undoes C) (is_reader : Bool) (d : EndpointData) (ctx : Context C)
      → (key_to_gid C L d.participant_key).bytes ≢ ctx.gid.bytes
      → (add_remote_entity C L d is_reader ctx).0 ≡ Ret.ok
      → (for_samples
          (on_endpoint C L is_reader)
          (valid d
            ∷ invalid InstanceState.not_alive_disposed (L.builtin_topic_key_to_guid d.key)
            ∷ [])
          ctx).cache
        ≡ ctx.cache
  unfolding on_endpoint add_remote_entity remove_entity
  on_endpoint-disposed U is_reader d ctx n e =
      elim (Bool-cases (text_eq (key_to_gid C L d.participant_key).bytes ctx.gid.bytes)) [
        | inl x ↦ absurd (n (text_eq→eq _ _ x))
        | inr x ↦
            let a =
              add_entity-Added C U (L.builtin_topic_key_to_guid d.key)
                (L.builtin_topic_key_to_guid d.participant_key) d.topic_name d.type_name d.policies
                (if is_reader then none else d.policies.lifespan) is_reader ctx in
            let y = rw (add_remote_entity, x) at e in
            elim a [
              | inl (f, _) ↦ absurd (let z : is_ok Ret.ok ≡ false = rw y at f in cc)
              | inr (_, z) ↦
                  rw (on_endpoint, add_remote_entity, x, remove_entity, remote_key d, z) refl
            ]
      ]
