-- ===== src/Endpoint/Delivered.antt =====
-- Which messages one loan gives to a take, and that it gives them in order.
use rmw_connextdds.Prelude.{
  ℕ, suc, ◌+◌, ◌≤◌, ◌<◌, ◌≡◌, refl, sym, ap, ◌∙◌, ◌≢◌, inl, inr, true, false, ◌&&◌, List, [], ◌∷◌,
  ◌++◌, append_assoc, append-nil, Option, none, some, length, drop, drop-suc, length-drop, ltb,
  arith, length-append, Bool-cases, Option-cases,
}
use rmw_connextdds.Ret.{Ret}
use rmw_connextdds.Endpoint.Sample.{Sample, Platform, Taken, convert, message_info_from_dds}
use rmw_connextdds.Endpoint.Loan.{Subscriber, Call, is_accepted, take_sample, take_loaned}
use rmw_connextdds.Endpoint.Queue.{IsValid, SameConfig}

module _ (P : Platform) where
  -- The samples that a call accepts, each converted into the buffer at its position.
  unfoldable pub delivered : Call P → Subscriber P → ℕ → List Sample → Option (List (Taken P))
  delivered call s n [] = some []
  delivered call s n (x ∷ xs) = elim (is_accepted P call s x) [
    | false ↦ delivered call s n xs
    | true ↦ elim (convert P call.serialized call.kind (call.buffers n) x) [
      | none ↦ none
      | some c ↦ elim (delivered call s (suc n) xs) [
        | none ↦ none
        | some rest ↦
            some (record { content = c; message_info = message_info_from_dds P x.info } ∷ rest)
      ]
    ]
  ]

  pub delivered-append :
      (call : Call P) (s : Subscriber P) (n : ℕ) (xs ys : List Sample) (us vs : List (Taken P))
      → delivered call s n xs ≡ some us
      → delivered call s (n + length us) ys ≡ some vs
      → delivered call s n (xs ++ ys) ≡ some (us ++ vs)
  unfolding delivered
  delivered-append call s n [] ys us vs h k =
      let e : us ≡ [] = ground arith in
      let m : n + length us ≡ n = omega (arith, ap length e) in rw e (rw m at k)
  delivered-append call s n (x ∷ xs) ys [] vs h k =
      ground (arith, delivered-append call s n xs ys [] vs)
  delivered-append call s n (x ∷ xs) ys (u ∷ us) vs h k =
      let e : suc n + length us ≡ n + length (u ∷ us) = omega arith in
      let k' : delivered call s (suc n + length us) ys ≡ some vs = rw e k in
      ground (
        arith,
        delivered-append call s n xs ys (u ∷ us) vs,
        delivered-append call s (suc n) xs ys us vs,
      )

  pub delivered-SameConfig :
      (call : Call P) (s t : Subscriber P) (n : ℕ) (xs : List Sample)
      → SameConfig P s t
      → delivered call t n xs ≡ delivered call s n xs
  unfolding delivered is_accepted
  delivered-SameConfig call s t n [] h = refl
  delivered-SameConfig call s t n (x ∷ xs) h =
      rw (h.ignore_local, h.participant_handle)
        (ground
          (arith, delivered-SameConfig call s t n xs h, delivered-SameConfig call s t (suc n) xs h))

  pub take_sample-delivered :
      (call : Call P) (s : Subscriber P) (x : Sample) (out out' : List (Taken P))
      → take_sample P call s x out ≡ some out'
      → (new : List (Taken P)) × (out' ≡ out ++ new)
        × (delivered call s (length out) (x ∷ []) ≡ some new)
        × (length new ≤ 1)
  unfolding take_sample delivered
  take_sample-delivered call s x out out' h = elim (Bool-cases (is_accepted P call s x)) [
    | inr e ↦ ([], ground (arith, append-nil out), ground arith, omega arith)
    | inl e ↦
        elim (Option-cases (convert P call.serialized call.kind (call.buffers (length out)) x)) [
          | inl f ↦ absurd (ground arith)
          | inr (c, f) ↦ (
            record { content = c; message_info = message_info_from_dds P x.info } ∷ [],
            ground arith,
            ground arith,
            omega arith,
          )
        ]
  ]

  -- What one loan gives to a call, from its unread samples `rest`.
  pub record Scanned (call : Call P) (rest : List Sample) (s : Subscriber P) (out : List (Taken P))
      (r : Ret × Subscriber P × List (Taken P)) : Type 0 where
    pub consumed : List Sample
    pub new : List (Taken P)
    pub split : rest ≡ consumed ++ drop r.1.loan_next r.1.loan_data
    pub grown : r.2 ≡ out ++ new
    pub told : delivered call s (length out) consumed ≡ some new
    pub valid : IsValid P r.1
    pub config : SameConfig P s r.1
    pub reader : r.1.reader ≡ s.reader
    pub bound : length out ≤ call.max_samples → length r.2 ≤ call.max_samples
    pub ended : r.0 ≡ Ret.ok → length r.2 < call.max_samples → drop r.1.loan_next r.1.loan_data ≡ []
    pub progress : r.0 ≡ Ret.ok → length out < call.max_samples → rest ≢ [] → consumed ≢ []

  -- A loop that takes nothing more.
  Scanned-stop :
      (call : Call P) (rest : List Sample) (s : Subscriber P) (out : List (Taken P)) (rc : Ret)
      → IsValid P s
      → rest ≡ drop s.loan_next s.loan_data
      → (rc ≡ Ret.ok → length out < call.max_samples → rest ≡ [])
      → Scanned call rest s out (rc, s, out)
  unfolding delivered
  Scanned-stop call rest s out rc v e stop = record {
    consumed = [];
    new = [];
    split = e;
    grown = sym (append-nil out);
    told = refl;
    valid = v;
    config = record { ignore_local = refl; participant_handle = refl };
    reader = refl;
    bound = λ h. h;
    ended = λ o h. sym e ∙ stop o h;
    progress = λ o h n c. n (stop o h);
  }

  Scanned-step :
      (call : Call P) (x : Sample) (rest : List Sample) (s : Subscriber P)
      (out out' : List (Taken P))
      → (ltb (length out) call.max_samples && ltb s.loan_next s.loan_len) ≡ true
      → take_sample P call s x out ≡ some out'
      → (r : Ret × Subscriber P × List (Taken P))
      → Scanned call rest (record s { loan_next = suc s.loan_next }) out' r
      → Scanned call (x ∷ rest) s out r
  Scanned-step call x rest s out out' more taken r h =
      let (new, grown, told, small) = take_sample-delivered call s x out out' taken in
      record {
        consumed = x ∷ h.consumed;
        new = new ++ h.new;
        split = ap (◌∷◌ x) h.split;
        grown = h.grown ∙ ap (λ l. l ++ h.new) grown ∙ append_assoc out new h.new;
        told = delivered-append call s (length out) (x ∷ []) h.consumed new h.new told (
            rw (← length-append out new, ← grown)
              (sym (
                  delivered-SameConfig call s (record s { loan_next = suc s.loan_next })
                    (length out') h.consumed
                    (record { ignore_local = refl; participant_handle = refl }))
                ∙ h.told));
        valid = h.valid;
        config = record {
          ignore_local = h.config.ignore_local;
          participant_handle = h.config.participant_handle;
        };
        reader = h.reader;
        bound = λ b. h.bound (ground (arith, ap length grown, length-append out new));
        ended = h.ended;
        progress = λ o l n. λ c. cc;
      }

  -- The inner loop reads the samples in order until the call is satisfied or the loan used up.
  pub take_loaned-Scanned :
      (call : Call P) (rest : List Sample) (s : Subscriber P) (out : List (Taken P))
      → IsValid P s
      → rest ≡ drop s.loan_next s.loan_data
      → Scanned call rest s out (take_loaned P call rest s out)
  unfolding take_loaned
  take_loaned-Scanned call [] s out v e = Scanned-stop call [] s out Ret.ok v e (λ o h. refl)
  take_loaned-Scanned call (x ∷ rest) s out v e =
      elim (Bool-cases (ltb (length out) call.max_samples && ltb s.loan_next s.loan_len)) [
        | inr stop ↦
            rw (stop, take_loaned)
              (Scanned-stop call (x ∷ rest) s out Ret.ok v e (λ o h.
                absurd (ground (arith, ap length e, length-drop s.loan_next s.loan_data, v.len))))
        | inl more ↦ elim (Option-cases (take_sample P call s x out)) [
          | inl failed ↦
              rw (more, take_loaned, failed)
                (Scanned-stop call (x ∷ rest) s out Ret.error v e (λ o h. cc))
          | inr (out', taken) ↦
              rw (more, take_loaned, taken)
                (Scanned-step call x rest s out out' more taken _ (
                  take_loaned-Scanned call rest (record s { loan_next = suc s.loan_next }) out'
                    (record { len = v.len; next = ground arith })
                    (sym (drop-suc s.loan_next x s.loan_data rest (sym e)))))
        ]
      ]
