-- ===== src/WaitSet/Notices.antt =====
-- Who is asleep on `state_cond`, and who has still to notify it.
use rmw_connextdds.Prelude.{
  ℕ, ◌≡◌, ◌≢◌, ◌⊎◌, inl, inr, refl, ◌∙◌, ap, ==_iff, Bool, true, false, Bool-cases, arith, update,
  ◌==◌, update_same,
}
use rmw_connextdds.WaitSet.Protocol.{
  WaitSetState, Place, System, Move, wake_up, Step, turn, notify_all, Reach, start, later, spurious,
}

-- Where a thread can be that has still to notify.
abbrev pub may_notify : Place → Bool
may_notify Place.attaching = true
may_notify Place.sleeping = true
may_notify Place.processing = true
may_notify Place.cleaning = true
may_notify Place.outside = true
may_notify _ = false

abbrev pub Someone : (ℕ → Bool) → Type 0
Someone f = (i : ℕ) × (f i ≡ true)

pub record Heard (s : System) : Type 0 where
  pub able : (i : ℕ) → s.notifying i ≡ true → may_notify (s.place i) ≡ true
  pub heard :
      (k : ℕ)
      → s.place k ≡ Place.queueing
      → (s.state ≡ WaitSetState.invalidating) ⊎ Someone s.notifying

-- What a move does to the notifications: it changes the state and tells so, or it begins an
-- invalidation, or it keeps the state; and it ends in a sleep only during an invalidation.
data Notice (s s' : WaitSetState) (p' : Place) (b : Bool) : Type 0 where
  tells : b ≡ true → may_notify p' ≡ true → p' ≢ Place.queueing → Notice s s' p' b
  invalidates : b ≡ false → s' ≡ WaitSetState.invalidating → Notice s s' p' b
  silent : b ≡ false → s' ≡ s → p' ≢ Place.queueing → Notice s s' p' b

Move-Notice : {s s' : WaitSetState} {p p' : Place} {b : Bool} → Move s p s' p' b → Notice s s' p' b
Move-Notice Move.acquire = tells refl refl (λ e. cc)
Move-Notice Move.queue = invalidates refl refl
Move-Notice (Move.refuse a b) = silent refl refl (λ e. cc)
Move-Notice (Move.refuse_invalidate a b) = silent refl refl (λ e. cc)
Move-Notice Move.wake = tells refl refl (λ e. cc)
Move-Notice (Move.wake_late h) = silent refl refl (λ e. cc)
Move-Notice Move.sleep = tells refl refl (λ e. cc)
Move-Notice Move.process = tells refl refl (λ e. cc)
Move-Notice Move.return = tells refl refl (λ e. cc)
Move-Notice Move.fail_attach = silent refl refl (λ e. cc)
Move-Notice Move.fail_wait = silent refl refl (λ e. cc)
Move-Notice Move.fail_process = silent refl refl (λ e. cc)
Move-Notice Move.release = tells refl refl (λ e. cc)
Move-Notice Move.cleaned = silent refl refl (λ e. cc)
Move-Notice Move.invalidate = invalidates refl refl
Move-Notice Move.invalidated = tells refl refl (λ e. cc)
Move-Notice Move.await = silent refl refl (λ e. cc)
Move-Notice Move.awaited = silent refl refl (λ e. cc)

module _ (s : System) (H : Heard s) (i : ℕ) (idle : s.notifying i ≡ false) where
  module _ (s' : WaitSetState) (p' : Place) (b : Bool) where
    abbrev moved : System
    moved = record { state = s'; place = update s.place i p'; notifying = update s.notifying i b }

    -- The threads that had to notify still have.
    still : Someone s.notifying → Someone (update s.notifying i b)
    still (j, n) = elim (Bool-cases (i == j)) [
      | inl e ↦ absurd (let z : i ≡ j = (==_iff i j).0 e in let w = ap s.notifying z in cc)
      | inr e ↦ (j, ground (arith, e, n))
    ]

    able_after :
        (b ≡ true → may_notify p' ≡ true)
        → (j : ℕ) → update s.notifying i b j ≡ true
        → may_notify (update s.place i p' j) ≡ true
    able_after f j n = elim (Bool-cases (i == j)) [
      | inl e ↦ rw e (f (rw e at n))
      | inr e ↦ rw e (H.able j (rw e at n))
    ]

    Notice-Heard : Notice s.state s' p' b → Heard moved
    Notice-Heard (tells t m q) = record {
      able = able_after (λ _. m);
      heard = λ k e. inr (i, update_same s.notifying i b ∙ t);
    }
    Notice-Heard (invalidates t e) = record {
      able = able_after (λ x. absurd cc);
      heard = λ k _. inl e;
    }
    Notice-Heard (silent t e q) = record {
      able = able_after (λ x. absurd cc);
      heard = λ k h. elim (Bool-cases (i == k)) [
        | inl x ↦ absurd (q (rw x at h))
        | inr x ↦ elim (H.heard k (rw x at h)) [ inl y ↦ inl (e ∙ y) | inr y ↦ inr (still y) ]
      ];
    }

-- Who is woken is not asleep.
wake_up-awake : (p : Place) → wake_up p ≢ Place.queueing
wake_up-awake Place.outside e = cc
wake_up-awake Place.queueing e = cc
wake_up-awake Place.woken e = cc
wake_up-awake Place.attaching e = cc
wake_up-awake Place.sleeping e = cc
wake_up-awake Place.processing e = cc
wake_up-awake Place.failing e = cc
wake_up-awake Place.cleaning e = cc
wake_up-awake Place.invalidating e = cc
wake_up-awake Place.awaiting e = cc
wake_up-awake Place.signalled e = cc

-- Who is able to notify is not asleep.
wake_up-may_notify : (p : Place) → may_notify p ≡ true → may_notify (wake_up p) ≡ true
wake_up-may_notify Place.outside e = refl
wake_up-may_notify Place.attaching e = refl
wake_up-may_notify Place.sleeping e = refl
wake_up-may_notify Place.processing e = refl
wake_up-may_notify Place.cleaning e = refl
wake_up-may_notify Place.queueing e = absurd cc
wake_up-may_notify Place.woken e = absurd cc
wake_up-may_notify Place.failing e = absurd cc
wake_up-may_notify Place.invalidating e = absurd cc
wake_up-may_notify Place.awaiting e = absurd cc
wake_up-may_notify Place.signalled e = absurd cc

Step-Heard : {s t : System} → Step s t → Heard s → Heard t
Step-Heard {s} (turn i {state} {place} {told} n m) H =
    Notice-Heard s H i n state place told (Move-Notice m)
Step-Heard {s} (notify_all i n) H = record {
  able = λ j e. wake_up-may_notify (s.place j) (H.able j (ground (arith, e)));
  heard = λ k e. absurd (wake_up-awake (s.place k) e);
}

spurious-Heard :
    (s : System) (i : ℕ)
    → Heard s
    → Heard (record s { place = update s.place i (wake_up (s.place i)) })
spurious-Heard s i H = record {
  able = λ j n. elim (Bool-cases (i == j)) [
    | inl e ↦
        let z : i ≡ j = (==_iff i j).0 e in
        rw e (wake_up-may_notify (s.place i) (ap (λ k. may_notify (s.place k)) z ∙ H.able j n))
    | inr e ↦ rw e (H.able j n)
  ];
  heard = λ k h. elim (Bool-cases (i == k)) [
    | inl e ↦ absurd (wake_up-awake (s.place i) (rw e at h))
    | inr e ↦ H.heard k (rw e at h)
  ];
}

pub Reach-Heard : {s : System} → Reach s → Heard s
Reach-Heard start = record { able = λ i n. absurd cc; heard = λ k e. absurd cc }
Reach-Heard (later r st) = Step-Heard st (Reach-Heard r)
Reach-Heard (spurious {s} i r) = spurious-Heard s i (Reach-Heard r)
