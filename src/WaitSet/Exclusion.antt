-- ===== src/WaitSet/Exclusion.antt =====
-- Who has the wait set to itself, in every state that can be reached.
use rmw_connextdds.Prelude.{
  ℕ, ◌≡◌, ◌≢◌, ◌⊎◌, ◌↔◌, inl, inr, refl, sym, ◌∙◌, Bool, true, false, Bool-cases, arith, update,
  ◌==◌,
}
use rmw_connextdds.WaitSet.Protocol.{
  WaitSetState, Place, System, Move, wake_up, Step, turn, notify_all, init, Reach, start, later,
  spurious,
}

-- A thread that works on the wait set's lists under a state that keeps the others out.
abbrev pub is_owner : Place → Bool
is_owner Place.attaching = true
is_owner Place.sleeping = true
is_owner Place.processing = true
is_owner Place.failing = true
is_owner Place.invalidating = true
is_owner _ = false

-- The states that an owner's place goes with.
abbrev pub Fits : WaitSetState → Place → Type 0
Fits s Place.attaching = s ≡ WaitSetState.acquiring
Fits s Place.sleeping = s ≡ WaitSetState.blocked
Fits s Place.processing = s ≡ WaitSetState.releasing
Fits s Place.invalidating = s ≡ WaitSetState.invalidating
Fits s Place.failing = (s ≢ WaitSetState.free) × (s ≢ WaitSetState.invalidating)
Fits s _ = Unit {0}

pub record Inv (s : System) : Type 0 where
  pub fits : (i : ℕ) → Fits s.state (s.place i)
  pub unique : (i j : ℕ) → is_owner (s.place i) ≡ true → is_owner (s.place j) ≡ true → i ≡ j
  pub owned : s.state ≢ WaitSetState.free → (i : ℕ) × (is_owner (s.place i) ≡ true)

Inv-init : Inv init
Inv-init = record { fits = λ i. tt; unique = λ i j h. cc; owned = λ h. absurd (h refl) }

-- What a move does to the ownership of the wait set.
data Change (s : WaitSetState) (p : Place) (s' : WaitSetState) (p' : Place) : Type 0 where
  keeps :
      is_owner p ≡ true
      → is_owner p' ≡ true
      → s' ≢ WaitSetState.free
      → Fits s' p'
      → Change s p s' p'
  takes :
      s ≡ WaitSetState.free
      → is_owner p' ≡ true
      → s' ≢ WaitSetState.free
      → Fits s' p'
      → Change s p s' p'
  gives : is_owner p ≡ true → is_owner p' ≡ false → s' ≡ WaitSetState.free → Change s p s' p'
  stays : is_owner p ≡ false → is_owner p' ≡ false → s' ≡ s → Change s p s' p'

Move-Change :
    {s s' : WaitSetState} {p p' : Place} {b : Bool} → Move s p s' p' b → Fits s p → Change s p s' p'
Move-Change Move.acquire f = takes refl refl (cc) refl
Move-Change Move.queue f = stays refl refl refl
Move-Change (Move.refuse a b) f = stays refl refl refl
Move-Change (Move.refuse_invalidate a b) f = stays refl refl refl
Move-Change Move.wake f = takes refl refl (cc) refl
Move-Change (Move.wake_late h) f = stays refl refl refl
Move-Change Move.sleep f = keeps refl refl (cc) refl
Move-Change Move.process f = keeps refl refl (cc) refl
Move-Change Move.return f = gives refl refl refl
Move-Change Move.fail_attach f = keeps refl refl (λ e. cc) (λ e. cc, λ e. cc)
Move-Change Move.fail_wait f = keeps refl refl (λ e. cc) (λ e. cc, λ e. cc)
Move-Change Move.fail_process f = keeps refl refl (λ e. cc) (λ e. cc, λ e. cc)
Move-Change Move.release f = gives refl refl refl
Move-Change Move.cleaned f = stays refl refl refl
Move-Change Move.invalidate f = takes refl refl (cc) refl
Move-Change Move.invalidated f = gives refl refl refl
Move-Change Move.await f = stays refl refl refl
Move-Change Move.awaited f = stays refl refl refl

Fits-of_not_owner : (s : WaitSetState) (p : Place) → is_owner p ≡ false → Fits s p
Fits-of_not_owner s Place.outside h = tt
Fits-of_not_owner s Place.queueing h = tt
Fits-of_not_owner s Place.woken h = tt
Fits-of_not_owner s Place.signalled h = tt
Fits-of_not_owner s Place.cleaning h = tt
Fits-of_not_owner s Place.awaiting h = tt
Fits-of_not_owner s Place.attaching h = cc
Fits-of_not_owner s Place.sleeping h = absurd (cc)
Fits-of_not_owner s Place.processing h = absurd (cc)
Fits-of_not_owner s Place.failing h = absurd (cc)
Fits-of_not_owner s Place.invalidating h = absurd (cc)

-- No thread owns a free wait set.
pub not_owner_of_free : (p : Place) → Fits WaitSetState.free p → is_owner p ≡ false
not_owner_of_free Place.outside f = refl
not_owner_of_free Place.queueing f = refl
not_owner_of_free Place.woken f = refl
not_owner_of_free Place.signalled f = refl
not_owner_of_free Place.cleaning f = refl
not_owner_of_free Place.awaiting f = refl
not_owner_of_free Place.attaching f = absurd (cc)
not_owner_of_free Place.sleeping f = absurd (cc)
not_owner_of_free Place.processing f = absurd (cc)
not_owner_of_free Place.failing f = absurd (f.0 refl)
not_owner_of_free Place.invalidating f = absurd (cc)

module _ (s : System) (I : Inv s) (i : ℕ) (s' : WaitSetState) (p' : Place) (n' : ℕ → Bool) where
  abbrev moved : System
  moved = record { state = s'; place = update s.place i p'; notifying = n' }

  -- The other threads do not own the wait set while `i` does.
  others : (j : ℕ) → is_owner (s.place i) ≡ true → (i == j) ≡ false → is_owner (s.place j) ≡ false
  others j o d = elim (Bool-cases (is_owner (s.place j))) [
    | inr n ↦ n
    | inl y ↦ let e : i ≡ j = I.unique i j o y in absurd (ground (arith, e, d))
  ]

  -- A thread `i` that owns, among others that do not.
  owner_Inv :
      is_owner p' ≡ true
      → s' ≢ WaitSetState.free
      → Fits s' p'
      → ((j : ℕ) → (i == j) ≡ false → is_owner (s.place j) ≡ false)
      → Inv moved
  owner_Inv o n f rest = record {
    fits = λ j. elim (Bool-cases (i == j)) [
      | inl e ↦ rw (e, Fits) f
      | inr e ↦ rw (e, Fits) (Fits-of_not_owner s' (s.place j) (rest j e))
    ];
    unique = λ j k a b. ground (arith, rest j, rest k);
    owned = λ h. (i, ground (arith, o));
  }

  -- No thread owns a free wait set.
  free_Inv :
      is_owner p' ≡ false
      → s' ≡ WaitSetState.free
      → ((j : ℕ) → (i == j) ≡ false → is_owner (s.place j) ≡ false)
      → Inv moved
  free_Inv o n rest = record {
    fits = λ j. elim (Bool-cases (i == j)) [
      | inl e ↦ rw (e, Fits) (Fits-of_not_owner s' p' o)
      | inr e ↦ rw (e, Fits) (Fits-of_not_owner s' (s.place j) (rest j e))
    ];
    unique = λ j k a b. ground (arith, rest j, rest k);
    owned = λ h. absurd (h n);
  }

  Change-Inv : Change s.state (s.place i) s' p' → Inv moved
  Change-Inv (keeps a b c d) = owner_Inv b c d (λ j. others j a)
  Change-Inv (takes a b c d) =
      owner_Inv b c d (λ j e. not_owner_of_free (s.place j) (rw a at (I.fits j)))
  Change-Inv (gives a b c) = free_Inv b c (λ j. others j a)
  Change-Inv (stays a b c) = record {
    fits = λ j. elim (Bool-cases (i == j)) [
      | inl e ↦ rw (e, Fits) (Fits-of_not_owner s' p' b)
      | inr e ↦ rw (e, Fits) (rw (← c) at (I.fits j))
    ];
    unique = λ j k x y. ground (arith, I.unique j k);
    owned = λ h. let (k, o) = I.owned (λ e. h (c ∙ e)) in (k, ground (arith, o, a));
  }

-- Waking a thread does not change what it owns.
wake_up-is_owner : (p : Place) → is_owner (wake_up p) ≡ is_owner p
wake_up-is_owner Place.outside = refl
wake_up-is_owner Place.queueing = refl
wake_up-is_owner Place.woken = refl
wake_up-is_owner Place.attaching = refl
wake_up-is_owner Place.sleeping = refl
wake_up-is_owner Place.processing = refl
wake_up-is_owner Place.failing = refl
wake_up-is_owner Place.cleaning = refl
wake_up-is_owner Place.invalidating = refl
wake_up-is_owner Place.awaiting = refl
wake_up-is_owner Place.signalled = refl

wake_up-Fits : (s : WaitSetState) (p : Place) → Fits s p → Fits s (wake_up p)
wake_up-Fits s Place.outside f = f
wake_up-Fits s Place.queueing f = f
wake_up-Fits s Place.woken f = f
wake_up-Fits s Place.attaching f = f
wake_up-Fits s Place.sleeping f = f
wake_up-Fits s Place.processing f = f
wake_up-Fits s Place.failing f = f
wake_up-Fits s Place.cleaning f = f
wake_up-Fits s Place.invalidating f = f
wake_up-Fits s Place.awaiting f = f
wake_up-Fits s Place.signalled f = f

wake_all-Inv :
    (s : System) (n' : ℕ → Bool)
    → Inv s
    → Inv (record s { place = λ j. wake_up (s.place j); notifying = n' })
wake_all-Inv s n' I = record {
  fits = λ j. wake_up-Fits s.state (s.place j) (I.fits j);
  unique = λ j k a b.
      I.unique j k (sym (wake_up-is_owner (s.place j)) ∙ a)
        (sym (wake_up-is_owner (s.place k)) ∙ b);
  owned = λ h. let (i, o) = I.owned h in (i, wake_up-is_owner (s.place i) ∙ o);
}

wake_one-Inv :
    (s : System) (i : ℕ) → Inv s → Inv (record s { place = update s.place i (wake_up (s.place i)) })
wake_one-Inv s i I = elim (Bool-cases (is_owner (s.place i))) [
  | inl o ↦ Change-Inv s I i s.state (wake_up (s.place i)) s.notifying (
      keeps o (wake_up-is_owner (s.place i) ∙ o)
        (λ e. let z = not_owner_of_free (s.place i) (rw e at (I.fits i)) in cc)
        (wake_up-Fits s.state (s.place i) (I.fits i)))
  | inr o ↦
      Change-Inv s I i s.state (wake_up (s.place i)) s.notifying
        (stays o (wake_up-is_owner (s.place i) ∙ o) refl)
]

-- A step keeps the invariant.
pub Step-Inv : {s t : System} → Step s t → Inv s → Inv t
Step-Inv {s} (turn i {state} {place} {told} n m) I =
    Change-Inv s I i state place (update s.notifying i told) (Move-Change m (I.fits i))
Step-Inv {s} (notify_all i n) I = wake_all-Inv s (update s.notifying i false) I

pub Reach-Inv : {s : System} → Reach s → Inv s
Reach-Inv start = Inv-init
Reach-Inv (later r st) = Step-Inv st (Reach-Inv r)
Reach-Inv (spurious {s} i r) = wake_one-Inv s i (Reach-Inv r)

-- Every state but the first is another one.
pub free_or_not : (s : WaitSetState) → (s ≡ WaitSetState.free) ⊎ (s ≢ WaitSetState.free)
free_or_not WaitSetState.free = inl refl
free_or_not WaitSetState.acquiring = inr (cc)
free_or_not WaitSetState.blocked = inr (cc)
free_or_not WaitSetState.releasing = inr (cc)
free_or_not WaitSetState.invalidating = inr (cc)

free_of_no_owner :
    {s : System} → Inv s → ((i : ℕ) → is_owner (s.place i) ≡ false) → s.state ≡ WaitSetState.free
free_of_no_owner {s} I none_owns = elim (free_or_not s.state) [
  | inl e ↦ e
  | inr n ↦ let (i, o) = I.owned n in absurd (let q = none_owns i in cc)
]

-- In every state that can be reached, at most one thread owns the wait set, and the wait set is
-- free exactly when none does.
pub Reach-exclusive :
    {s : System}
    → Reach s
    → ((i j : ℕ) → is_owner (s.place i) ≡ true → is_owner (s.place j) ≡ true → i ≡ j)
      × ((s.state ≡ WaitSetState.free) ↔ ((i : ℕ) → is_owner (s.place i) ≡ false))
Reach-exclusive {s} r =
    let I = Reach-Inv r in
    (I.unique, (λ e i. not_owner_of_free (s.place i) (rw e at (I.fits i)), free_of_no_owner I))
