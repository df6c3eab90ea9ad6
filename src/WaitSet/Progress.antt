-- ===== src/WaitSet/Progress.antt =====
-- What can still happen from a state that has been reached: a thread that waits for the end of an
-- invalidation is woken and goes on; but an error hands the wait set on too early.
use rmw_connextdds.Prelude.{
  ℕ, suc, leb, ◌≡◌, ◌≢◌, ◌⊎◌, inl, inr, refl, sym, ap, ==_iff, ◌∙◌, Bool, true, false, Bool-cases,
  arith, update, ◌==◌, update_same,
}
use rmw_connextdds.WaitSet.Protocol.{
  WaitSetState, Place, System, Move, wake_up, Step, turn, notify_all, Reach, later,
}
use rmw_connextdds.WaitSet.Notices.{may_notify, Heard, Reach-Heard}

-- A number of steps, in none of which a thread wakes up by itself.
pub data Runs (s : System) : ℕ → System → Type 0 where
  here : Runs s 0 s
  next : {n : ℕ} {t u : System} → Runs s n t → Step t u → Runs s (suc n) u

-- The thread `i` makes a move from the place `p`.
act :
    {state' : WaitSetState} {p p' : Place} {b : Bool} (s : System) (i : ℕ)
    → s.notifying i ≡ false
    → s.place i ≡ p
    → Move s.state p state' p' b
    → Step s
        (record { state = state'; place = update s.place i p'; notifying = update s.notifying i b })
act s i n e m = turn i n (rw e m)

not_same : {A : Type 0} (f : ℕ → A) (i k : ℕ) → f i ≢ f k → (i == k) ≡ false
not_same f i k n = elim (Bool-cases (i == k)) [
  | inr d ↦ d
  | inl e ↦ absurd (n (ap f ((==_iff i k).0 e)))
]

-- A thread that is where none has to notify has not.
quiet : {s : System} (i : ℕ) → Heard s → may_notify (s.place i) ≡ false → s.notifying i ≡ false
quiet {s} i H m = elim (Bool-cases (s.notifying i)) [
  | inr n ↦ n
  | inl n ↦ absurd (let z = H.able i n in cc)
]

-- At most three steps after which the thread `k` has the wait set, or has been refused it because
-- another call of `wait` had it already.
pub record Served (s : System) (k : ℕ) : Type 0 where
  pub steps : ℕ
  pub last : System
  pub runs : Runs s steps last
  pub few : leb steps 3 ≡ true
  pub ends :
      (last.place k ≡ Place.attaching)
      ⊎ ((last.place k ≡ Place.outside)
          × (s.state ≢ WaitSetState.free)
          × (s.state ≢ WaitSetState.invalidating))

-- The thread `j` notifies, if it has to.
record Notified (s : System) (j : ℕ) : Type 0 where
  last : System
  reached : Reach last
  state : last.state ≡ s.state
  quiet : last.notifying j ≡ false
  places : (i : ℕ) → wake_up (s.place i) ≡ s.place i → last.place i ≡ s.place i

settle : {s : System} (j : ℕ) → Reach s → Notified s j
settle {s} j r = elim (Bool-cases (s.notifying j)) [
  | inr n ↦ record { last = s; reached = r; state = refl; quiet = n; places = λ i e. refl }
  | inl n ↦ record {
    last = record s { place = λ i. wake_up (s.place i); notifying = update s.notifying j false };
    reached = later r (notify_all j n);
    state = refl;
    quiet = update_same s.notifying j false;
    places = λ i e. e;
  }
]

-- Once a thread `i` returns an error from `wait` and another one, `j`, has not called it, states are
-- reached in which `i` still detaches the conditions while `j` already attaches its own.
pub cleaning_race :
    {s : System} (i j : ℕ)
    → Reach s
    → s.place i ≡ Place.failing
    → s.place j ≡ Place.outside
    → (t : System) × Reach t × (t.place i ≡ Place.cleaning) × (t.place j ≡ Place.attaching)
cleaning_race {s} i j r f o =
    let d : (i == j) ≡ false = not_same s.place i j (λ e. cc) in
    let S = settle j r in
    let v = S.last in
    let fi : v.place i ≡ Place.failing = S.places i (ap wake_up f ∙ sym f) ∙ f in
    let oj : v.place j ≡ Place.outside = S.places j (ap wake_up o ∙ sym o) ∙ o in
    let u : System = record {
      state = WaitSetState.free;
      place = update v.place i Place.cleaning;
      notifying = update v.notifying i true;
    } in
    let r1 : Reach u =
      later S.reached
        (act v i (quiet i (Reach-Heard S.reached) (ap may_notify fi)) fi Move.release) in
    let nj : u.notifying j ≡ false = rw d S.quiet in
    (
      record {
        state = WaitSetState.acquiring;
        place = update u.place j Place.attaching;
        notifying = update u.notifying j true;
      },
      later r1 (act u j nj (rw d oj) Move.acquire),
      ground (arith, d),
      update_same u.place j Place.attaching,
    )
