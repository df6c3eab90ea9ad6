-- ===== src/Endpoint/Ready.antt =====
-- What has_data tells a wait set of the subscriber's queue.
use rmw_connextdds.Prelude.{
  ◌≡◌, ◌≢◌, ◌<◌, refl, ap, ◌∙◌, Bool, true, false, ltb, ltb→lt, [], length, drop, length-append,
  length-drop, arith, if◌then◌else◌,
}
use rmw_connextdds.Ret.{Ret, is_ok, is_ok→eq}
use rmw_connextdds.Endpoint.Sample.{Platform}
use rmw_connextdds.Endpoint.Loan.{Subscriber, loan_messages_if_needed, has_data}
use rmw_connextdds.Endpoint.Queue.{
  IsValid, Documented, queue, Refreshed, loan_messages_if_needed-Refreshed,
}

answered : (b c : Bool) → (if b then c else false) ≡ true → (b ≡ true) × (c ≡ true)
answered true c h = (refl, h)
answered false c h = absurd cc

denied : (rc : Ret) (c : Bool) → (if is_ok rc then c else false) ≡ false → rc ≡ Ret.ok → c ≡ false
denied rc c h o = ground (arith, h, o)

module _ (P : Platform) (D : Documented P) where
  -- A loan that is not used up holds a sample of the queue.
  unread :
      (s t : Subscriber P) (rc : Ret)
      → Refreshed P D s (rc, t)
      → rc ≡ Ret.ok
      → 0 < t.loan_len
      → queue P D s ≢ []
  unread s t rc R o l e =
      let more : t.loan_next < t.loan_len = R.fresh o (omega arith) in
      let none_left : length (queue P D t) ≡ 0 = ap length (R.same ∙ e) in
      absurd (
        omega (
          arith,
          more,
          none_left,
          R.valid.len,
          length-append (drop t.loan_next t.loan_data) (D.pending t.reader),
          length-drop t.loan_next t.loan_data,
        ))

  -- For a valid subscriber, asking whether there is data keeps the queue and the subscriber valid;
  -- a positive answer means that the queue is not empty, and a negative one, unless the loan
  -- failed, that it is.
  pub has_data-queue :
      (s : Subscriber P)
      → IsValid P s
      → IsValid P (has_data P s).1
        × (queue P D (has_data P s).1 ≡ queue P D s)
        × ((has_data P s).0 ≡ true → queue P D s ≢ [])
        × ((has_data P s).0 ≡ false → (loan_messages_if_needed P s).0 ≡ Ret.ok → queue P D s ≡ [])
  unfolding has_data
  has_data-queue s v =
      let r = loan_messages_if_needed P s in
      let R = loan_messages_if_needed-Refreshed P D s v in
      (
        R.valid,
        R.same,
        (λ h.
            unread s r.1 r.0 R (is_ok→eq r.0 (answered (is_ok r.0) (ltb 0 r.1.loan_len) h).0)
              (ltb→lt 0 r.1.loan_len (answered (is_ok r.0) (ltb 0 r.1.loan_len) h).1)),
        (λ h o. R.exhausted o (ground (arith, denied r.0 (ltb 0 r.1.loan_len) h o))),
      )
