-- ===== src/PosixShm/Sequential.antt =====
-- C/posix_shm_worker.c: the workers that run one after the other in PosixShm.Setup are one of the
-- schedules of PosixShm, where their calls may interleave.
use linux_riscv.Prelude.{
  ℕ, suc, ◌+◌, ◌-◌, ◌≡◌, sym, ◌∙◌, ap, ap₂, length, List, [], ◌∷◌, arith, update, ◌<◌, some, Option,
  Bool, true,
}
use linux_riscv.PosixShm.{
  Pc, waiting, entered, written, loaded, stored, done, Shared, wait, print, load, store, post,
}
use linux_riscv.PosixShm.Progress.{Leads, stop, onward, Leads-trans}
use linux_riscv.PosixShm.Setup.{Call, page, Names, workers, after_workers, workers_lem, text_after}

-- What the names stand for in a state of the workers.
pub names_of : Shared → Names
names_of s = record {
  segment = page (record { count = s.count; text = s.text });
  semaphore = some s.value;
}

-- The workers of the list are at their starts, each once.
abbrev pub AllWaiting : (ℕ → Pc) → List ℕ → Type 0
AllWaiting pc [] = Unit {0}
AllWaiting pc (i ∷ is) = (pc i ≡ waiting) × AllWaiting (update pc i done) is

abbrev pub AllDone : (ℕ → Pc) → List ℕ → Type 0
AllDone pc [] = Unit {0}
AllDone pc (i ∷ is) = (pc i ≡ done) × AllDone pc is

-- The turn of one worker.
abbrev entering : ℕ → Shared → Shared
entering i s = record s { value = s.value - 1; pc = update s.pc i entered }

abbrev printing : ℕ → Shared → Shared
printing i s = record s { text = some (i, s.count); pc = update s.pc i written }

abbrev loading : ℕ → Shared → Shared
loading i s = record s { pc = update s.pc i (loaded s.count) }

abbrev storing : ℕ → ℕ → Shared → Shared
storing i c s = record s { count = c + 1; pc = update s.pc i stored }

abbrev posting : ℕ → Shared → Shared
posting i s = record s { value = s.value + 1; pc = update s.pc i done }

abbrev turn : ℕ → Shared → Shared
turn i s = posting i (storing i s.count (loading i (printing i (entering i s))))

at_self : (f : ℕ → Pc) (i : ℕ) (p : Pc) → update f i p i ≡ p
at_self f i p = ground arith

Leads-turn : (s : Shared) (i : ℕ) → 0 < s.value → s.pc i ≡ waiting → Leads s (turn i s)
Leads-turn s i h e =
    let s₁ = entering i s in
    let s₂ = printing i s₁ in
    let s₃ = loading i s₂ in
    let s₄ = storing i s.count s₃ in
    let l₁ : Leads s s₁ = onward stop (wait i e h) in
    let l₂ : Leads s s₂ = onward l₁ (print i (at_self s.pc i entered)) in
    let l₃ : Leads s s₃ = onward l₂ (load i (at_self s₁.pc i written)) in
    let l₄ : Leads s s₄ = onward l₃ (store i s.count (at_self s₂.pc i (loaded s.count))) in
    onward l₄ (post i (at_self s₃.pc i stored))

turn-pc : (s : Shared) (i j : ℕ) → (turn i s).pc j ≡ update s.pc i done j
turn-pc s i j = ground arith

AllWaiting-ext :
    (pc pc' : ℕ → Pc) (is : List ℕ)
    → ((j : ℕ) → pc' j ≡ pc j)
    → AllWaiting pc is
    → AllWaiting pc' is
AllWaiting-ext pc pc' [] h w = tt
AllWaiting-ext pc pc' (i ∷ is) h (e, w) =
    (h i ∙ e, AllWaiting-ext (update pc i done) (update pc' i done) is (λ j. ground (arith, h j)) w)

-- The turns of the workers in the order of the list.
turns : List ℕ → Shared → Shared
turns [] s = s
turns (i ∷ is) s = turns is (turn i s)

Leads-turns : (is : List ℕ) (s : Shared) → 0 < s.value → AllWaiting s.pc is → Leads s (turns is s)
unfolding turns
Leads-turns [] s h w = stop
Leads-turns (i ∷ is) s h (e, w) = Leads-trans (Leads-turn s i h e) (
    Leads-turns is (turn i s) (omega arith)
      (AllWaiting-ext (update s.pc i done) (turn i s).pc is (turn-pc s i) w))

turns-done : (is : List ℕ) (s : Shared) (j : ℕ) → s.pc j ≡ done → (turns is s).pc j ≡ done
unfolding turns
turns-done [] s j e = e
turns-done (i ∷ is) s j e = turns-done is (turn i s) j (turn-pc s i j ∙ ground (arith, e))

turns-AllDone : (is : List ℕ) (s : Shared) → AllDone (turns is s).pc is
unfolding turns
turns-AllDone [] s = tt
turns-AllDone (i ∷ is) s =
    (turns-done is (turn i s) i (turn-pc s i i ∙ at_self s.pc i done), turns-AllDone is (turn i s))

abbrev names_with : Option (ℕ × ℕ) → (count value : ℕ) → Names
names_with t c v = record { segment = page (record { count = c; text = t }); semaphore = some v }

names_of-turns :
    (is : List ℕ) (s : Shared) (v : ℕ)
    → s.value ≡ suc v
    → names_of (turns is s) ≡ after_workers v (record { count = s.count; text = s.text }) is
unfolding names_of turns
names_of-turns [] s v e =
    let same : s.count ≡ s.count + 0 = omega arith in ap₂ (names_with s.text) same e
names_of-turns (i ∷ is) s v e =
    let back : s.value - 1 + 1 ≡ suc v = omega (arith, e) in
    let count : s.count + 1 + length is ≡ s.count + suc (length is) = omega arith in
    names_of-turns is (turn i s) v back
    ∙ ap (λ (c : ℕ). names_with (text_after (s.count + 1) (some (i, s.count)) is) c (suc v)) count

-- Where the kernel grants every call, the semaphore is not 0, and each worker of a list is there
-- once and has not begun: the programs of these workers, run one after the other, leave under the
-- two names what a schedule of the interleaved workers leaves in which all of them come to their
-- ends.
pub workers-Leads :
    (granted : Call → Bool)
    → ((c : Call) → granted c ≡ true)
    → (s : Shared) (v : ℕ) (is : List ℕ) → s.value ≡ suc v
    → AllWaiting s.pc is
    → (t : Shared) × Leads s t
      × AllDone t.pc is
      × (workers granted is (names_of s) ≡ some (names_of t))
unfolding names_of
workers-Leads granted all s v is e w = (
  turns is s,
  Leads-turns is s (omega (arith, e)) w,
  turns-AllDone is s,
  ap (λ (w : ℕ). workers granted is (names_with s.text s.count w)) e
      ∙ workers_lem granted all is v (record { count = s.count; text = s.text })
      ∙ ap (λ (m : Names). some m) (sym (names_of-turns is s v e)),
)
