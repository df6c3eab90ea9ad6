-- ===== src/Endpoint/Loan.antt =====
-- RMW_Connext_Subscriber's loans and takes: common/rmw_impl.cpp and
-- include/rmw_connextdds/rmw_impl.hpp, with the reads of ndds/dds_api_ndds.cpp.
-- A method takes the subscriber and returns it with its result. `loan_mutex` is held throughout.
use rmw_connextdds.Prelude.{
  ℕ, zero, suc, Bool, true, false, ◌&&◌, ◌||◌, List, [], ◌∷◌, ◌++◌, Option, none, some, length,
  drop, ltb, leb, ◌==◌, if◌then◌else◌,
}
use rmw_connextdds.Ret.{Ret, is_ok}
use rmw_connextdds.Endpoint.Sample.{
  Sample, ByteArray, Platform, Loaned, Taken, convert, filter_sample, message_info_from_dds,
}

module _ (P : Platform) where
  open P use {State, read_or_take, unloan, return_loan, set_trigger_value}

  -- `loan_data` and `loan_info` are one list of samples.
  pub record Subscriber : Type 0 where
    pub reader : State
    pub loan_data : List Sample
    pub loan_len : ℕ
    pub loan_next : ℕ
    pub ignore_local : Bool
    pub participant_handle : List ℕ

  unfoldable pub take_samples : Subscriber → Ret × Subscriber
  take_samples s =
      let (r, st) = read_or_take s.reader in
      elim r [
        | Loaned.loaned xs ↦ (Ret.ok, record s { reader = st; loan_data = xs })
        | Loaned.no_data ↦ (Ret.ok, record s { reader = st })
        | Loaned.failed ↦ (Ret.error, record s { reader = st })
      ]

  unfoldable pub return_samples : Subscriber → Ret × Subscriber
  return_samples s =
      let (unloaned, st) = unloan s.reader in
      let (returned, st') = return_loan st in
      if unloaned
      then (if returned then Ret.ok else Ret.error, record s { reader = st'; loan_data = [] })
      else (Ret.error, record s { reader = st })

  unfoldable pub set_data_available : Bool → Subscriber → Ret × Subscriber
  set_data_available available s =
      let (done, st) = set_trigger_value available s.reader in
      (if done then Ret.ok else Ret.error, record s { reader = st })

  unfoldable pub loan_messages : Subscriber → Ret × Subscriber
  loan_messages s =
      let (rc, s1) = take_samples s in
      let n = length s1.loan_data in
      if is_ok rc
      then set_data_available (ltb 0 n) (record s1 { loan_len = n })
      else (Ret.error, s1)

  unfoldable pub return_messages : Subscriber → Ret × Subscriber
  return_messages s =
      let (rc, s1) = return_samples (record s { loan_len = 0; loan_next = 0 }) in
      let (rc', s2) = set_data_available false s1 in (if is_ok rc' then rc else rc', s2)

  unfoldable pub loan_messages_if_needed : Subscriber → Ret × Subscriber
  loan_messages_if_needed s =
      if (s.loan_len == 0) || leb s.loan_len s.loan_next
      then (let (rc, s1) = (if ltb 0 s.loan_len then return_messages s else (Ret.ok, s)) in
          if is_ok rc then loan_messages s1 else (rc, s1))
      else (Ret.ok, s)

  -- The error of loan_messages_if_needed counts as no data.
  unfoldable pub has_data : Subscriber → Bool × Subscriber
  has_data s =
      let (rc, s1) = loan_messages_if_needed s in
      (if is_ok rc then ltb 0 s1.loan_len else false, s1)

  -- The arguments of take_next. `kind` is as for `convert`; `buffers` are the byte arrays that
  -- the caller passes for serialized messages.
  pub record Call : Type 0 where
    pub max_samples : ℕ
    pub serialized : Bool
    pub request_writer_handle : Option (List ℕ)
    pub kind : Option Bool
    pub buffers : ℕ → ByteArray

  unfoldable pub is_accepted : Call → Subscriber → Sample → Bool
  is_accepted call s x =
      if x.info.valid_data
      then filter_sample P s.ignore_local s.participant_handle call.request_writer_handle x.info
      else false

  -- One sample: the messages taken so far and perhaps one more; `none` where it cannot be converted.
  unfoldable pub take_sample : Call → Subscriber → Sample → List (Taken P) → Option (List (Taken P))
  take_sample call s x out =
      if is_accepted call s x
      then elim (convert P call.serialized call.kind (call.buffers (length out)) x) [
        | none ↦ none
        | some c ↦
            some (out ++ record { content = c; message_info = message_info_from_dds P x.info } ∷ [])
      ]
      else some out

  -- The inner loop, over the samples from `loan_next` on.
  unfoldable pub take_loaned :
      Call → List Sample → Subscriber → List (Taken P) → Ret × Subscriber × List (Taken P)
  take_loaned call [] s out = (Ret.ok, s, out)
  take_loaned call (x ∷ rest) s out =
      elim (ltb (length out) call.max_samples && ltb s.loan_next s.loan_len) [
        | false ↦ (Ret.ok, s, out)
        | true ↦ elim (take_sample call s x out) [
          | none ↦ (Ret.error, s, out)
          | some out' ↦ take_loaned call rest (record s { loan_next = suc s.loan_next }) out'
        ]
      ]

  -- What follows the outer loop.
  unfoldable pub take_done : Subscriber → List (Taken P) → Ret × Subscriber × List (Taken P)
  take_done s out =
      let (rc, s1) =
        (if ltb 0 s.loan_len && leb s.loan_len s.loan_next
          then return_messages s
          else (Ret.ok, s)) in
      (rc, s1, out)

  -- The outer loop, on fuel: `none` means that the fuel ran out.
  unfoldable pub take_rounds :
      ℕ → Call → Subscriber → List (Taken P) → Option (Ret × Subscriber × List (Taken P))
  take_rounds zero call s out = none
  take_rounds (suc fuel) call s out = elim (ltb (length out) call.max_samples) [
    | false ↦ some (take_done s out)
    | true ↦
        let (rc, s1) = loan_messages_if_needed s in
        elim (is_ok rc) [
          | false ↦ some (rc, s1, out)
          | true ↦ elim (s1.loan_len == 0) [
            | true ↦ some (Ret.ok, s1, out)
            | false ↦
                let (rc', s2, out') = take_loaned call (drop s1.loan_next s1.loan_data) s1 out in
                elim (is_ok rc') [
                  | false ↦ some (rc', s2, out')
                  | true ↦ take_rounds fuel call s2 out'
                ]
          ]
        ]
  ]

  unfoldable pub take_next : ℕ → Call → Subscriber → Option (Ret × Subscriber × List (Taken P))
  take_next fuel call s = take_rounds fuel call s []
