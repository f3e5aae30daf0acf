-- ===== src/PiSem.antt =====
-- C/pi_sem.h with USE_PI_SEM: `_pi_sem_open_or_create`, run by any number of processes on one
-- name. `exists` and `sized` say what was done to the segment, `inits` how often `pi_sem_init` ran
-- on it; the flag that a process carries is its `created`. Whether a system call fails is left
-- open, as the code is written for each of its failures. A creator whose `ftruncate` failed is killed
-- by the first store into the mapping, behind the end of the segment.
pub mod Once
mod Tests
use linux_riscv.Prelude.{
  ℕ, ◌+◌, ◌≤◌, ◌≡◌, ◌≢◌, ◌⊎◌, refl, sym, inl, inr, ap, ◌∙◌, Bool, true, false, ◌||◌, arith, update,
}

pub data Pc : Type 0 where
  starting created refused : Pc
  have_fd mapped opened failed : Bool → Pc
  killed : Pc

-- The process has created the segment.
abbrev pub is_creator : Pc → Bool
is_creator starting = false
is_creator created = true
is_creator refused = false
is_creator (have_fd b) = b
is_creator (mapped b) = b
is_creator (opened b) = b
is_creator (failed b) = b
is_creator killed = true

pub record Segment : Type 0 where
  pub exists : Bool
  pub sized : Bool
  pub inits : ℕ
  pub pc : ℕ → Pc

pub no_segment : Segment
no_segment = record { exists = false; sized = false; inits = 0; pc = λ i. starting }

-- The two `shm_open`, `ftruncate`, whose result is not looked at, `mmap` and `pi_sem_init`.
pub data Step : Segment → Segment → Type 0 where
  create :
      {s : Segment} (i : ℕ)
      → s.pc i ≡ starting
      → s.exists ≡ false
      → Step s (record s { exists = true; pc = update s.pc i created })
  refuse :
      {s : Segment} (i : ℕ) → s.pc i ≡ starting → Step s (record s { pc = update s.pc i refused })
  truncate :
      {s : Segment} (i : ℕ) (granted : Bool)
      → s.pc i ≡ created
      → Step s (record s { sized = s.sized || granted; pc = update s.pc i (have_fd true) })
  attach :
      {s : Segment} (i : ℕ)
      → s.pc i ≡ refused
      → s.exists ≡ true
      → Step s (record s { pc = update s.pc i (have_fd false) })
  attach_fails :
      {s : Segment} (i : ℕ)
      → s.pc i ≡ refused
      → Step s (record s { pc = update s.pc i (failed false) })
  map :
      {s : Segment} (i : ℕ) (b : Bool)
      → s.pc i ≡ have_fd b
      → Step s (record s { pc = update s.pc i (mapped b) })
  map_fails :
      {s : Segment} (i : ℕ) (b : Bool)
      → s.pc i ≡ have_fd b
      → Step s (record s { pc = update s.pc i (failed b) })
  init :
      {s : Segment} (i : ℕ)
      → s.pc i ≡ mapped true
      → s.sized ≡ true
      → Step s (record s { inits = s.inits + 1; pc = update s.pc i (opened true) })
  init_faults :
      {s : Segment} (i : ℕ)
      → s.pc i ≡ mapped true
      → s.sized ≡ false
      → Step s (record s { pc = update s.pc i killed })
  skip :
      {s : Segment} (i : ℕ)
      → s.pc i ≡ mapped false
      → Step s (record s { pc = update s.pc i (opened false) })

pub data Reach : Segment → Type 0 where
  here : Reach no_segment
  next : {s t : Segment} → Reach s → Step s t → Reach t

-- The mutex has not been initialised, or once, and its creator has returned.
abbrev pub Once : Segment → Type 0
Once s =
    ((s.inits ≡ 0) × ((i : ℕ) → s.pc i ≢ opened true))
    ⊎ ((s.inits ≡ 1) × ((i : ℕ) × (s.pc i ≡ opened true)))

pub record Inv (s : Segment) : Type 0 where
  pub there : (i : ℕ) → is_creator (s.pc i) ≡ true → s.exists ≡ true
  pub unique : (i j : ℕ) → is_creator (s.pc i) ≡ true → is_creator (s.pc j) ≡ true → i ≡ j
  pub once : Once s

no_segment-Inv : Inv no_segment
unfolding no_segment
no_segment-Inv = record { there = λ i e. cc; unique = λ i j e f. cc; once = inl (refl, λ i e. cc) }

-- A process goes on without a change of its `created` and without having initialised the mutex.
record GoesOn (s t : Segment) : Type 0 where
  exists : t.exists ≡ s.exists
  inits : t.inits ≡ s.inits
  creator : (j : ℕ) → is_creator (t.pc j) ≡ is_creator (s.pc j)
  opened_in : (j : ℕ) → s.pc j ≡ opened true → t.pc j ≡ opened true
  opened_out : (j : ℕ) → t.pc j ≡ opened true → s.pc j ≡ opened true

GoesOn-Inv : {s t : Segment} → GoesOn s t → Inv s → Inv t
GoesOn-Inv g v = record {
  there = λ j e. g.exists ∙ v.there j (sym (g.creator j) ∙ e);
  unique = λ j k e f. v.unique j k (sym (g.creator j) ∙ e) (sym (g.creator k) ∙ f);
  once = elim v.once [
    | inl (z, none_yet) ↦ inl (g.inits ∙ z, λ j e. none_yet j (g.opened_out j e))
    | inr (one, (i, e)) ↦ inr (g.inits ∙ one, (i, g.opened_in i e))
  ];
}

-- A step of process `i` to `c` that changes at most the size of the segment.
moves :
    (s : Segment) (size : Bool) (i : ℕ) (c : Pc)
    → is_creator (s.pc i) ≡ is_creator c
    → s.pc i ≢ opened true
    → c ≢ opened true
    → GoesOn s (record s { sized = size; pc = update s.pc i c })
moves s size i c same before after = record {
  exists = refl;
  inits = refl;
  creator = λ j. ground (arith, same);
  opened_in = λ j e. ground (arith, before);
  opened_out = λ j e. ground (arith, after);
}

-- The one that initialises the mutex has not done it before.
not_twice : (s : Segment) (i j : ℕ) → Inv s → s.pc i ≡ mapped true → s.pc j ≡ opened true → ⊥
not_twice s i j v e f =
    let same : i ≡ j = v.unique i j (ap is_creator e) (ap is_creator f) in ground (arith, same)

Step-Inv : {s t : Segment} → Step s t → Inv s → Inv t
Step-Inv (create {s} i e none_there) v = record {
  there = λ j f. refl;
  unique = λ j k f g. ground (arith, v.there j, v.there k);
  once = elim v.once [
    | inl (z, none_yet) ↦ inl (z, λ j f. ground (arith, none_yet j))
    | inr (one, (j, f)) ↦ inr (one, (j, ground (arith, v.there j)))
  ];
}
Step-Inv (refuse {s} i e) v =
    GoesOn-Inv (moves s s.sized i refused (ap is_creator e) (λ q. cc) (λ q. cc)) v
Step-Inv (truncate {s} i granted e) v =
    GoesOn-Inv (moves s (s.sized || granted) i (have_fd true) (ap is_creator e) (λ q. cc) (λ q. cc))
      v
Step-Inv (attach {s} i e there) v =
    GoesOn-Inv (moves s s.sized i (have_fd false) (ap is_creator e) (λ q. cc) (λ q. cc)) v
Step-Inv (attach_fails {s} i e) v =
    GoesOn-Inv (moves s s.sized i (failed false) (ap is_creator e) (λ q. cc) (λ q. cc)) v
Step-Inv (map {s} i b e) v =
    GoesOn-Inv (moves s s.sized i (mapped b) (ap is_creator e) (λ q. cc) (λ q. cc)) v
Step-Inv (map_fails {s} i b e) v =
    GoesOn-Inv (moves s s.sized i (failed b) (ap is_creator e) (λ q. cc) (λ q. cc)) v
Step-Inv (init {s} i e z) v = record {
  there = λ j f. ground (arith, v.there j, v.there i);
  unique = λ j k f g. ground (arith, v.unique j k, v.unique i k, v.unique j i);
  once = elim v.once [
    | inl (z, none_yet) ↦ inr (omega (arith, z), (i, ground arith))
    | inr (one, (j, f)) ↦ absurd (not_twice s i j v e f)
  ];
}
Step-Inv (init_faults {s} i e z) v =
    GoesOn-Inv (moves s s.sized i killed (ap is_creator e) (λ q. cc) (λ q. cc)) v
Step-Inv (skip {s} i e) v =
    GoesOn-Inv (moves s s.sized i (opened false) (ap is_creator e) (λ q. cc) (λ q. cc)) v

pub Reach-Inv : {s : Segment} → Reach s → Inv s
Reach-Inv here = no_segment-Inv
Reach-Inv (next r st) = Step-Inv st (Reach-Inv r)

pub Once-inits : (s : Segment) → Once s → s.inits ≤ 1
Once-inits s (inl (z, none_yet)) = omega (arith, z)
Once-inits s (inr (one, by)) = omega (arith, one)

pub done_by : (s : Segment) → Once s → (i : ℕ) → s.pc i ≡ opened true → s.inits ≡ 1
done_by s (inl (z, none_yet)) i e = absurd (none_yet i e)
done_by s (inr (one, by)) i e = one

-- For any two processes there is a history in which the second has opened the semaphore while the
-- first, which creates it, has not initialised the mutex.
pub opened_before_init :
    (i j : ℕ)
    → i ≢ j
    → (s : Segment) × Reach s × (s.pc j ≡ opened false) × (s.pc i ≡ created) × (s.inits ≡ 0)
unfolding no_segment
opened_before_init i j h =
    let c = next here (create i refl refl) in
    let r = next c (refuse j (ground arith)) in
    let a = next r (attach j (ground arith) refl) in
    let m = next a (map j false (ground arith)) in
    (_, next m (skip j (ground arith)), ground arith, ground arith, refl)
