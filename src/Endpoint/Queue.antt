-- ===== src/Endpoint/Queue.antt =====
-- What the subscriber promises of Endpoint.Loan: a take hands over, in order, what the queue of
-- received samples holds. The queue is the loan's rest and what the DDS reader still keeps.
use rmw_connextdds.Prelude.{
  ◌≤◌, ◌<◌, ◌≡◌, ◌≢◌, Bool, true, false, List, [], ◌++◌, length, drop, drop_all, nil_of_length, ltb,
  arith,
}
use rmw_connextdds.Ret.{Ret, is_ok}
use rmw_connextdds.Endpoint.Sample.{Sample, Platform, Loaned}
use rmw_connextdds.Endpoint.Loan.{
  Subscriber, take_samples, return_samples, set_data_available, loan_messages, return_messages,
  loan_messages_if_needed,
}

abbrev pub TakesFrom : List Sample → Loaned → List Sample → Type 0
TakesFrom q (Loaned.loaned xs) q' = (q ≡ xs ++ q') × (xs ≢ [])
TakesFrom q Loaned.no_data q' = (q ≡ []) × (q' ≡ [])
TakesFrom q Loaned.failed q' = q' ≡ q

-- What DDS documents of the reader, for a call during which no sample arrives: a take removes a
-- non-empty first part of what is pending, and the other calls leave it alone.
pub record Documented (P : Platform) : Type 0 where
  pub pending : P.State → List Sample
  pub take_pending :
      (st : P.State) → TakesFrom (pending st) (P.read_or_take st).0 (pending (P.read_or_take st).1)
  pub unloan_pending :
      (st : P.State) → ((P.unloan st).0 ≡ true) × (pending (P.unloan st).1 ≡ pending st)
  pub return_pending : (st : P.State) → pending (P.return_loan st).1 ≡ pending st
  pub trigger_pending :
      (b : Bool) (st : P.State) → pending (P.set_trigger_value b st).1 ≡ pending st

module _ (P : Platform) where
  pub record IsValid (s : Subscriber P) : Type 0 where
    pub len : s.loan_len ≡ length s.loan_data
    pub next : s.loan_next ≤ s.loan_len

  -- What a call leaves of the subscriber that is fixed at its creation.
  pub record SameConfig (s t : Subscriber P) : Type 0 where
    pub ignore_local : t.ignore_local ≡ s.ignore_local
    pub participant_handle : t.participant_handle ≡ s.participant_handle

module _ (P : Platform) (D : Documented P) where
  open D use {pending, take_pending, unloan_pending, return_pending, trigger_pending}

  abbrev pub queue : Subscriber P → List Sample
  queue s = drop s.loan_next s.loan_data ++ pending s.reader

  pub record Refreshed (s : Subscriber P) (r : Ret × Subscriber P) : Type 0 where
    pub valid : IsValid P r.1
    pub same : queue r.1 ≡ queue s
    pub config : SameConfig P s r.1
    pub exhausted : r.0 ≡ Ret.ok → r.1.loan_len ≡ 0 → queue s ≡ []
    pub fresh : r.0 ≡ Ret.ok → r.1.loan_len ≢ 0 → r.1.loan_next < r.1.loan_len

  -- A call that only touches the DDS reader's own state.
  record Frame (s t : Subscriber P) : Type 0 where
    loan_data : t.loan_data ≡ s.loan_data
    loan_len : t.loan_len ≡ s.loan_len
    loan_next : t.loan_next ≡ s.loan_next
    ignore_local : t.ignore_local ≡ s.ignore_local
    participant_handle : t.participant_handle ≡ s.participant_handle
    kept : pending t.reader ≡ pending s.reader

  set_data_available-Frame : (b : Bool) (s : Subscriber P) → Frame s (set_data_available P b s).1
  unfolding set_data_available
  set_data_available-Frame b s = ground (arith, trigger_pending b s.reader)

  record TakenFrom (s : Subscriber P) (r : Ret × Subscriber P) : Type 0 where
    loan_len : r.1.loan_len ≡ s.loan_len
    loan_next : r.1.loan_next ≡ s.loan_next
    ignore_local : r.1.ignore_local ≡ s.ignore_local
    participant_handle : r.1.participant_handle ≡ s.participant_handle
    kept : pending s.reader ≡ r.1.loan_data ++ pending r.1.reader
    none_left : r.0 ≡ Ret.ok → r.1.loan_data ≡ [] → pending s.reader ≡ []
    none_lost : is_ok r.0 ≡ false → r.1.loan_data ≡ []

  take_samples-TakenFrom : (s : Subscriber P) → s.loan_data ≡ [] → TakenFrom s (take_samples P s)
  unfolding take_samples
  take_samples-TakenFrom s d = ground (arith, take_pending s.reader)

  abbrev renewed : Subscriber P → Subscriber P
  renewed s = let s1 = (take_samples P s).1 in record s1 { loan_len = length s1.loan_data }

  loan_messages-Refreshed :
      (s : Subscriber P)
      → s.loan_data ≡ []
      → s.loan_len ≡ 0
      → s.loan_next ≡ 0
      → Refreshed s (loan_messages P s)
  unfolding loan_messages
  loan_messages-Refreshed s d l n = ground (
    arith,
    take_samples-TakenFrom s d,
    set_data_available-Frame (ltb 0 (renewed s).loan_len) (renewed s),
  )

  pub record Returned (s t : Subscriber P) : Type 0 where
    pub loan_data : t.loan_data ≡ []
    pub loan_len : t.loan_len ≡ 0
    pub loan_next : t.loan_next ≡ 0
    pub ignore_local : t.ignore_local ≡ s.ignore_local
    pub participant_handle : t.participant_handle ≡ s.participant_handle
    pub kept : pending t.reader ≡ pending s.reader

  return_samples-Returned :
      (s : Subscriber P)
      → Returned s (return_samples P (record s { loan_len = 0; loan_next = 0 })).1
  unfolding return_samples
  return_samples-Returned s =
      ground (arith, unloan_pending s.reader, return_pending (P.unloan s.reader).1)

  abbrev returned : Subscriber P → Subscriber P
  returned s = (return_samples P (record s { loan_len = 0; loan_next = 0 })).1

  pub return_messages-Returned : (s : Subscriber P) → Returned s (return_messages P s).1
  unfolding return_messages
  return_messages-Returned s =
      ground (arith, return_samples-Returned s, set_data_available-Frame false (returned s))

  pub Returned-queue :
      (s t : Subscriber P)
      → IsValid P s
      → s.loan_len ≤ s.loan_next
      → Returned s t
      → queue t ≡ queue s
  Returned-queue s t v h r = ground (arith, drop_all s.loan_next s.loan_data)

  -- When a loan is needed the old one is used up, and is returned first.
  pub loan_messages_if_needed-Refreshed :
      (s : Subscriber P) → IsValid P s → Refreshed s (loan_messages_if_needed P s)
  unfolding loan_messages_if_needed
  loan_messages_if_needed-Refreshed s v = ground (
    arith,
    return_messages-Returned s,
    Returned-queue s (return_messages P s).1 v,
    nil_of_length s.loan_data,
    loan_messages-Refreshed s,
    loan_messages-Refreshed (return_messages P s).1,
  )
