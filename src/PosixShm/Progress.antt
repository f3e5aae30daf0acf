-- ===== src/PosixShm/Progress.antt =====
-- C/posix_shm_worker.c: that no worker is shut out for good.
use linux_riscv.Prelude.{
  ℕ, ◌+◌, ◌-◌, ◌≡◌, ◌≢◌, refl, inl, inr, ap, ◌∙◌, true, arith, update, ◌<◌, some,
}
use linux_riscv.Mutex.{Excludes, insiders}
use linux_riscv.PosixShm.{
  Pc, waiting, entered, written, loaded, stored, done, critical, Shared, Step, wait, print, load,
  store, post, Reach, Inv, Reach-Inv,
}

-- The states that a schedule can lead to.
pub data Leads (s : Shared) : Shared → Type 0 where
  stop : Leads s s
  onward : {t u : Shared} → Leads s t → Step t u → Leads s u

pub Leads-trans : {s t u : Shared} → Leads s t → Leads t u → Leads s u
Leads-trans p stop = p
Leads-trans p (onward q st) = onward (Leads-trans p q) st

-- A state in which worker `i` is done, the semaphore has been given back, and the other workers
-- stand where they stood.
record Finished (s : Shared) (i : ℕ) (t : Shared) : Type 0 where
  leads : Leads s t
  at_end : t.pc i ≡ done
  given_back : t.value ≡ s.value + 1
  others : (j : ℕ) → j ≢ i → t.pc j ≡ s.pc j

update_self : {P : Type 0} (f : ℕ → P) (i : ℕ) (p : P) → update f i p i ≡ p
update_self f i p = ground arith

update_other : {P : Type 0} (f : ℕ → P) (i j : ℕ) (p : P) → j ≢ i → update f i p j ≡ f j
update_other f i j p h = ground arith

-- A step of `i` that keeps the semaphore comes before the rest of its turn.
before :
    {s t u : Shared} (i : ℕ)
    → Step s t
    → t.value ≡ s.value
    → ((j : ℕ) → j ≢ i → t.pc j ≡ s.pc j)
    → Finished t i u
    → Finished s i u
before i st same others f = record {
  leads = Leads-trans (onward stop st) f.leads;
  at_end = f.at_end;
  given_back = f.given_back ∙ ap (λ (n : ℕ). n + 1) same;
  others = λ j h. f.others j h ∙ others j h;
}

from_stored : (s : Shared) (i : ℕ) → s.pc i ≡ stored → (t : Shared) × Finished s i t
from_stored s i e = (
  record s { value = s.value + 1; pc = update s.pc i done },
  record {
    leads = onward stop (post i e);
    at_end = update_self s.pc i done;
    given_back = refl;
    others = λ j h. update_other s.pc i j done h;
  },
)

from_loaded : (s : Shared) (i c : ℕ) → s.pc i ≡ loaded c → (t : Shared) × Finished s i t
from_loaded s i c e =
    let s' : Shared = record s { count = c + 1; pc = update s.pc i stored } in
    let (t, f) = from_stored s' i (update_self s.pc i stored) in
    (t, before i (store i c e) refl (λ j h. update_other s.pc i j stored h) f)

from_written : (s : Shared) (i : ℕ) → s.pc i ≡ written → (t : Shared) × Finished s i t
from_written s i e =
    let s' : Shared = record s { pc = update s.pc i (loaded s.count) } in
    let (t, f) = from_loaded s' i s.count (update_self s.pc i (loaded s.count)) in
    (t, before i (load i e) refl (λ j h. update_other s.pc i j (loaded s.count) h) f)

from_entered : (s : Shared) (i : ℕ) → s.pc i ≡ entered → (t : Shared) × Finished s i t
from_entered s i e =
    let s' : Shared = record s { text = some (i, s.count); pc = update s.pc i written } in
    let (t, f) = from_written s' i (update_self s.pc i written) in
    (t, before i (print i e) refl (λ j h. update_other s.pc i j written h) f)

from_inside :
    (s : Shared) (i : ℕ) (p : Pc) → s.pc i ≡ p → critical p ≡ true → (t : Shared) × Finished s i t
from_inside s i waiting e c = cc
from_inside s i done e c = cc
from_inside s i entered e c = from_entered s i e
from_inside s i written e c = from_written s i e
from_inside s i (loaded n) e c = from_loaded s i n e
from_inside s i stored e c = from_stored s i e

-- The state in which `i` enters.
abbrev let_in : ℕ → Shared → Shared
let_in i s = record s { value = s.value - 1; pc = update s.pc i entered }

enter :
    (s : Shared) (i : ℕ)
    → 0 < s.value
    → s.pc i ≡ waiting
    → (t : Shared) × Leads s t × (t.pc i ≡ done)
enter s i h e =
    let (t, f) = from_entered (let_in i s) i (update_self s.pc i entered) in
    (t, Leads-trans (onward stop (wait i e h)) f.leads, f.at_end)

-- A worker at its wait: whoever is inside goes out first.
from_waiting :
    (s : Shared) (i : ℕ)
    → Excludes s.value (insiders critical s.pc)
    → s.pc i ≡ waiting
    → (t : Shared) × Leads s t × (t.pc i ≡ done)
from_waiting s i (inl free) e = enter s i (omega (arith, free.0)) e
from_waiting s i (inr (z, (k, inside, only))) e =
    let (t, f) = from_inside s k (s.pc k) refl inside in
    let other : i ≢ k = λ q. cc (ap s.pc q, e, inside) in
    let (u, p, d) = enter t i (omega (arith, f.given_back)) (f.others i other ∙ e) in
    (u, Leads-trans f.leads p, d)

-- After every history of the workers, any worker can still come to its end: some schedule leads
-- there.
pub Reach-done :
    {n : ℕ} {s : Shared} → Reach n s → (i : ℕ) → (t : Shared) × Leads s t × (t.pc i ≡ done)
Reach-done {n} {s} r i = go (s.pc i) refl
  where
    v : Inv n s
    v = Reach-Inv r

    go : (p : Pc) → s.pc i ≡ p → (t : Shared) × Leads s t × (t.pc i ≡ done)
    go waiting e = from_waiting s i v.exclusive e
    go done e = (s, stop, e)
    go entered e = let (t, f) = from_entered s i e in (t, f.leads, f.at_end)
    go written e = let (t, f) = from_written s i e in (t, f.leads, f.at_end)
    go (loaded c) e = let (t, f) = from_loaded s i c e in (t, f.leads, f.at_end)
    go stored e = let (t, f) = from_stored s i e in (t, f.leads, f.at_end)
