-- ===== src/Endpoint/Take.antt =====
-- take_next ends, and hands over in order what the queue held.
use rmw_connextdds.Prelude.{
  ℕ, zero, suc, ◌+◌, ◌≤◌, ◌<◌, ◌≡◌, refl, sym, ap, ◌∙◌, ◌≢◌, ◌⊎◌, inl, inr, Bool, true, false, ◌&&◌,
  List, [], ◌++◌, append_assoc, append-nil, Option, none, some, length, drop, length-drop,
  length-pos, ltb, leb, ◌==◌, arith, length-append, Bool-cases, ltb→lt,
}
use rmw_connextdds.Ret.{Ret, is_ok, is_ok→eq}
use rmw_connextdds.Endpoint.Sample.{Sample, Platform, Taken}
use rmw_connextdds.Endpoint.Loan.{
  Subscriber, return_messages, loan_messages_if_needed, Call, take_loaned, take_done, take_rounds,
  take_next,
}
use rmw_connextdds.Endpoint.Queue.{
  IsValid, SameConfig, Documented, queue, Refreshed, loan_messages_if_needed-Refreshed,
  return_messages-Returned, Returned-queue,
}
use rmw_connextdds.Endpoint.Delivered.{
  delivered, delivered-append, delivered-SameConfig, Scanned, take_loaned-Scanned,
}

module _ (P : Platform) (D : Documented P) where
  -- What a take has done, from the messages `out` that it had already.
  pub record Delivers (call : Call P) (s : Subscriber P) (out : List (Taken P))
      (r : Ret × Subscriber P × List (Taken P)) : Type 0 where
    pub consumed : List Sample
    pub new : List (Taken P)
    pub split : queue P D s ≡ consumed ++ queue P D r.1
    pub grown : r.2 ≡ out ++ new
    pub told : delivered P call s (length out) consumed ≡ some new
    pub valid : IsValid P r.1
    pub bound : length r.2 ≤ call.max_samples
    pub complete : (is_ok r.0 ≡ false) ⊎ (call.max_samples ≤ length r.2) ⊎ (queue P D r.1 ≡ [])

  -- The fuel did not run out, and the result is right.
  abbrev pub Finishes :
      Call P → Subscriber P → List (Taken P) → Option (Ret × Subscriber P × List (Taken P)) → Type 0
  Finishes call s out none = ⊥
  Finishes call s out (some r) = Delivers call s out r

  Delivers-stop :
      (call : Call P) (s t : Subscriber P) (out : List (Taken P)) (rc : Ret)
      → IsValid P t
      → length out ≤ call.max_samples
      → queue P D t ≡ queue P D s
      → (is_ok rc ≡ false) ⊎ (call.max_samples ≤ length out) ⊎ (queue P D t ≡ [])
      → Delivers call s out (rc, t, out)
  unfolding delivered
  Delivers-stop call s t out rc v b q stop = record {
    consumed = [];
    new = [];
    split = sym q;
    grown = sym (append-nil out);
    told = refl;
    valid = v;
    bound = b;
    complete = stop;
  }

  take_done-Delivers :
      (call : Call P) (s : Subscriber P) (out : List (Taken P))
      → IsValid P s
      → length out ≤ call.max_samples
      → ltb (length out) call.max_samples ≡ false
      → Delivers call s out (take_done P s out)
  unfolding take_done
  take_done-Delivers call s out v b full =
      elim (Bool-cases (ltb 0 s.loan_len && leb s.loan_len s.loan_next)) [
        | inr e ↦
            rw (e, take_done)
              (Delivers-stop call s s out Ret.ok v b refl (inr (inl (ground arith))))
        | inl e ↦
            let R = return_messages-Returned P D s in
            rw (e, take_done)
              (Delivers-stop call s (return_messages P s).1 out (return_messages P s).0
                (record { len = ground arith; next = ground arith }) b
                (Returned-queue P D s (return_messages P s).1 v (ground arith) R)
                (inr (inl (ground arith))))
      ]

  Scanned-queue :
      (call : Call P) (s s1 : Subscriber P) (out : List (Taken P))
      (r : Ret × Subscriber P × List (Taken P))
      → Refreshed P D s (Ret.ok, s1)
      → (S : Scanned P call (drop s1.loan_next s1.loan_data) s1 out r)
      → queue P D s ≡ S.consumed ++ queue P D r.1
  Scanned-queue call s s1 out r R S =
      sym R.same
      ∙ ap (λ l. l ++ D.pending s1.reader) S.split
      ∙ append_assoc S.consumed (drop r.1.loan_next r.1.loan_data) (D.pending s1.reader)
      ∙ ap (λ st. S.consumed ++ (drop r.1.loan_next r.1.loan_data ++ D.pending st)) (sym S.reader)

  -- One loan, and then the rest of the call.
  Delivers-step :
      (call : Call P) (s s1 : Subscriber P) (out : List (Taken P))
      (r r' : Ret × Subscriber P × List (Taken P))
      → Refreshed P D s (Ret.ok, s1)
      → Scanned P call (drop s1.loan_next s1.loan_data) s1 out r
      → Delivers call r.1 r.2 r'
      → Delivers call s out r'
  Delivers-step call s s1 out r r' R S T =
      let cfg : SameConfig P s r.1 = record {
        ignore_local = S.config.ignore_local ∙ R.config.ignore_local;
        participant_handle = S.config.participant_handle ∙ R.config.participant_handle;
      } in
      let first : delivered P call s (length out) S.consumed ≡ some S.new =
        sym (delivered-SameConfig P call s s1 (length out) S.consumed R.config) ∙ S.told in
      let second : delivered P call s (length out + length S.new) T.consumed ≡ some T.new =
        rw (← length-append out S.new, ← S.grown)
          (sym (delivered-SameConfig P call s r.1 (length r.2) T.consumed cfg) ∙ T.told) in
      record {
        consumed = S.consumed ++ T.consumed;
        new = S.new ++ T.new;
        split =
            Scanned-queue call s s1 out r R S
            ∙ ap (λ l. S.consumed ++ l) T.split
            ∙ sym (append_assoc S.consumed T.consumed (queue P D r'.1));
        grown = T.grown ∙ ap (λ l. l ++ T.new) S.grown ∙ append_assoc out S.new T.new;
        told =
            delivered-append P call s (length out) S.consumed T.consumed S.new T.new first second;
        valid = T.valid;
        bound = T.bound;
        complete = T.complete;
      }

  -- A loan with unread samples makes the queue shorter.
  queue_shrinks :
      (call : Call P) (s s1 : Subscriber P) (out : List (Taken P))
      (r : Ret × Subscriber P × List (Taken P))
      → Refreshed P D s (Ret.ok, s1)
      → Scanned P call (drop s1.loan_next s1.loan_data) s1 out r
      → s1.loan_len ≢ 0
      → r.0 ≡ Ret.ok
      → length out < call.max_samples
      → length (queue P D r.1) < length (queue P D s)
  queue_shrinks call s s1 out r R S unread o l =
      let rest : 0 < length (drop s1.loan_next s1.loan_data) =
        omega (arith, length-drop s1.loan_next s1.loan_data, R.fresh refl unread, R.valid.len) in
      let some_read : 0 < length S.consumed =
        length-pos S.consumed (S.progress o l (λ e. absurd (omega (arith, ap length e, rest)))) in
      omega (
        arith,
        some_read,
        ap length (Scanned-queue call s s1 out r R S),
        length-append S.consumed (queue P D r.1),
      )

  Finishes-step :
      (call : Call P) (s s1 : Subscriber P) (out : List (Taken P))
      (r : Ret × Subscriber P × List (Taken P)) (m : Option (Ret × Subscriber P × List (Taken P)))
      → Refreshed P D s (Ret.ok, s1)
      → Scanned P call (drop s1.loan_next s1.loan_data) s1 out r
      → Finishes call r.1 r.2 m
      → Finishes call s out m
  Finishes-step call s s1 out r none R S T = T
  Finishes-step call s s1 out r (some r') R S T = Delivers-step call s s1 out r r' R S T

  -- The rest of a round after the inner loop, by how that ended.
  after_scan :
      (fuel : ℕ) (call : Call P) (s s1 : Subscriber P) (out : List (Taken P))
      (r : Ret × Subscriber P × List (Taken P)) (b : Bool)
      → is_ok r.0 ≡ b
      → Refreshed P D s (Ret.ok, s1)
      → Scanned P call (drop s1.loan_next s1.loan_data) s1 out r
      → length out ≤ call.max_samples
      → (is_ok r.0 ≡ true → Finishes call r.1 r.2 (take_rounds P fuel call r.1 r.2))
      → Finishes call s out (elim b [ false ↦ some r | true ↦ take_rounds P fuel call r.1 r.2 ])
  after_scan fuel call s s1 out r true e R S b T =
      Finishes-step call s s1 out r (take_rounds P fuel call r.1 r.2) R S (T e)
  after_scan fuel call s s1 out r false e R S b T =
      Delivers-step call s s1 out r r R S
        (Delivers-stop call r.1 r.1 r.2 r.0 S.valid (S.bound b) refl (inl e))

  abbrev round :
      ℕ
      → Call P
      → List (Taken P)
      → Ret × Subscriber P
      → Option (Ret × Subscriber P × List (Taken P))
  round fuel call out (rc, s1) = elim (is_ok rc) [
    | false ↦ some (rc, s1, out)
    | true ↦ elim (s1.loan_len == 0) [
      | true ↦ some (Ret.ok, s1, out)
      | false ↦
          let r = take_loaned P call (drop s1.loan_next s1.loan_data) s1 out in
          elim (is_ok r.0) [ false ↦ some r | true ↦ take_rounds P fuel call r.1 r.2 ]
    ]
  ]

  abbrev scan : Call P → List (Taken P) → Subscriber P → Ret × Subscriber P × List (Taken P)
  scan call out s1 = take_loaned P call (drop s1.loan_next s1.loan_data) s1 out

  after_loan :
      (fuel : ℕ) (call : Call P) (s s1 : Subscriber P) (out : List (Taken P)) (rc : Ret)
      → Refreshed P D s (rc, s1)
      → length out < call.max_samples
      → ((t : Subscriber P) (out' : List (Taken P))
          → IsValid P t
          → length out' ≤ call.max_samples
          → length (queue P D t) < length (queue P D s)
          → Finishes call t out' (take_rounds P fuel call t out'))
      → Finishes call s out (round fuel call out (rc, s1))
  after_loan fuel call s s1 out Ret.ok R more rest = elim (Bool-cases (s1.loan_len == 0)) [
    | inl e ↦
        rw (e, Finishes)
          (Delivers-stop call s s1 out Ret.ok R.valid (omega arith) R.same
            (inr (inr (R.same ∙ R.exhausted refl (ground arith)))))
    | inr e ↦
        let S = take_loaned-Scanned P call (drop s1.loan_next s1.loan_data) s1 out R.valid refl in
        let b : length out ≤ call.max_samples = omega arith in
        rw (e, Finishes)
          (after_scan fuel call s s1 out (scan call out s1) (is_ok (scan call out s1).0) refl R S b
            (λ o. rest (scan call out s1).1 (scan call out s1).2 S.valid (S.bound b) (
              queue_shrinks call s s1 out (scan call out s1) R S (ground arith) (is_ok→eq _ o)
                more)))
  ]
  after_loan fuel call s s1 out rc R more rest =
      Delivers-stop call s s1 out rc R.valid (omega arith) R.same (inl refl)

  take_rounds-Finishes :
      (fuel : ℕ) (call : Call P) (s : Subscriber P) (out : List (Taken P))
      → IsValid P s
      → length out ≤ call.max_samples
      → length (queue P D s) + 1 < fuel
      → Finishes call s out (take_rounds P fuel call s out)
  unfolding take_rounds
  take_rounds-Finishes zero call s out v b f = absurd (omega arith)
  take_rounds-Finishes (suc fuel) call s out v b f =
      elim (Bool-cases (ltb (length out) call.max_samples)) [
        | inr full ↦ rw (full, take_rounds) (take_done-Delivers call s out v b full)
        | inl more ↦
            rw (more, take_rounds)
              (after_loan fuel call s (loan_messages_if_needed P s).1 out
                (loan_messages_if_needed P s).0 (loan_messages_if_needed-Refreshed P D s v)
                (ltb→lt _ _ more)
                (λ t out' v' b' l. take_rounds-Finishes fuel call t out' v' b' (omega arith)))
      ]

  -- From a valid subscriber, a take ends with fuel above the number of queued samples and one, takes
  -- at most what was asked for, hands over in order the accepted samples of a first part of the
  -- queue, each converted, keeps the rest of the queue in order whatever the result, and leaves
  -- nothing queued where it succeeds with fewer messages than asked for.
  pub take_next-Finishes :
      (fuel : ℕ) (call : Call P) (s : Subscriber P)
      → IsValid P s
      → length (queue P D s) + 1 < fuel
      → Finishes call s [] (take_next P fuel call s)
  unfolding take_next
  take_next-Finishes fuel call s v f = take_rounds-Finishes fuel call s [] v (omega arith) f
