-- ===== src/MachineCode.antt =====
-- C/mem_ex1.c to C/mem_ex4.c: twelve bytes of machine code are stored in memory and called. The
-- processor is a parameter, with what the RISC-V manual says of the three instructions of RV32I that
-- the code uses. The programs have no FENCE.I between the stores and the call, so what the fetch
-- sees of the stored bytes is a parameter too.
pub mod Results
mod Tests
use linux_riscv.Prelude.{
  ℕ, zero, suc, ◌+◌, ◌-◌, ◌*◌, ◌/◌, ◌%◌, ◌^◌, ◌<◌, ◌≡◌, List, [], ◌∷◌, ℤ, pos, Bool, true, ◌&&◌,
  Option, none, some, ◌==◌, leb, if◌then◌else◌, update, drop, splice, replicate,
}

-- `inst[i] = v`
abbrev assign : ℕ → ℕ → List ℕ → List ℕ
assign i v inst = splice inst i (v ∷ [])

-- The twelve assignments.
pub store_code : List ℕ → List ℕ
store_code inst = assign 11 0 (
    assign 10 0 (
      assign 9 128 (
        assign 8 103 (
          assign 7 0 (
            assign 6 21 (
              assign 5 5
                (assign 4 19 (assign 3 0 (assign 2 0 (assign 1 21 (assign 0 55 inst)))))))))))

abbrev pub cleared : List ℕ
cleared = replicate 16 0

-- A word of 32 bits, the lowest byte first.
word : List ℕ → Option ℕ
word (b0 ∷ b1 ∷ b2 ∷ b3 ∷ rest) = some (((b3 * 256 + b2) * 256 + b1) * 256 + b0)
word _ = none

-- What the processor can fetch, where it sees the sixteen bytes `inst` at `base`.
pub fetch : (executable : Bool) → (base : ℕ) → List ℕ → ℕ → Option ℕ
unfolding word
fetch executable base inst a =
    if executable && (leb base a && leb (a + 4) (base + 16))
    then word (drop (a - base) inst)
    else none

pub record Machine : Type 0 where
  pub registers : ℕ → ℕ
  pub pc : ℕ

-- One instruction; `none` is an exception.
abbrev pub Processor : Type 0
Processor = (fetch : ℕ → Option ℕ) → Machine → Option Machine

-- Registers other than 0 are written; immediates that are not negative are added.
pub record ProcessorLaws (step : Processor) : Type 0 where
  pub lui :
      (fetch : ℕ → Option ℕ) (m : Machine) (rd imm : ℕ)
      → 0 < rd
      → rd < 32
      → imm < 2 ^ 20
      → fetch m.pc ≡ some (imm * 2 ^ 12 + rd * 2 ^ 7 + 55)
      → step fetch m
        ≡ some (record { registers = update m.registers rd (imm * 2 ^ 12); pc = m.pc + 4 })
  pub addi :
      (fetch : ℕ → Option ℕ) (m : Machine) (rd rs imm : ℕ)
      → 0 < rd
      → rd < 32
      → rs < 32
      → imm < 2 ^ 11
      → fetch m.pc ≡ some (imm * 2 ^ 20 + rs * 2 ^ 15 + rd * 2 ^ 7 + 19)
      → step fetch m
        ≡ some (record {
          registers = update m.registers rd ((m.registers rs + imm) % 2 ^ 32);
          pc = m.pc + 4;
        })
  pub jump :
      (fetch : ℕ → Option ℕ) (m : Machine) (rs imm : ℕ)
      → rs < 32
      → imm < 2 ^ 11
      → fetch m.pc ≡ some (imm * 2 ^ 20 + rs * 2 ^ 15 + 103)
      → step fetch m ≡ some (record m { pc = (m.registers rs + imm) % 2 ^ 32 / 2 * 2 })
  pub fault : (fetch : ℕ → Option ℕ) (m : Machine) → fetch m.pc ≡ none → step fetch m ≡ none

-- How a call ends: with a value in a0, by an exception, or not within the fuel.
pub data Outcome : Type 0 where
  returned : ℕ → Outcome
  exception no_fuel : Outcome

module _ (step : Processor) (fetch : ℕ → Option ℕ) where
  -- The instructions up to the return address.
  after : ℕ → ℕ → Option Machine → Outcome
  after fuel back none = exception
  after zero back (some m) = no_fuel
  after (suc fuel) back (some m) =
      let more = after fuel back (step fetch m) in
      if m.pc == back then returned (m.registers 10) else more

  -- `((int (*)())inst)()`: the return address is in x1.
  pub call : (fuel : ℕ) → (base back : ℕ) → (registers : ℕ → ℕ) → Outcome
  unfolding after
  call fuel base back registers =
      after fuel back (step fetch (record { registers = update registers 1 back; pc = base }))

-- How a program ends: with a status and the result that it prints, by a signal, or not at all.
pub data Exit : Type 0 where
  exit : ℤ → Option ℕ → Exit
  killed running : Exit

print_result : Outcome → Exit
print_result (returned v) = exit (pos 0) (some v)
print_result exception = killed
print_result no_fuel = running

-- Whether READ_IMPLIES_EXEC is set, under which what can be read can be executed.
pub record Persona : Type 0 where
  pub read_implies_exec : Bool

-- `personality(old_persona | READ_IMPLIES_EXEC)`
pub set_read_implies_exec : Persona → Persona
set_read_implies_exec p = record { read_implies_exec = true }

-- What the fetch sees, without FENCE.I, of an array that holds the bytes given.
abbrev pub Seen : Type 0
Seen = List ℕ → List ℕ

module _ (step : Processor) (seen : Seen) (fuel base back : ℕ) (registers : ℕ → ℕ) where
  -- The code is stored at `base` and called.
  pub run_code : (executable : Bool) → Exit
  unfolding print_result
  run_code executable =
      print_result
        (call step (fetch executable base (seen (store_code cleared))) fuel base back registers)

  -- The array of mem_ex1.c, which can be executed as the persona says.
  pub mem_ex1 : Persona → Exit
  mem_ex1 p = run_code p.read_implies_exec

  -- A mapping that is refused ends the other programs.
  pub mem_ex2 : (mapped : Bool) → Exit
  mem_ex2 mapped = if mapped then run_code true else exit (pos 1) none

  pub mem_ex3 : (mapped : Bool) → Persona → Exit
  mem_ex3 mapped p = if mapped then run_code p.read_implies_exec else exit (pos 1) none

  pub mem_ex4 : (mapped : Bool) → Persona → Exit
  mem_ex4 mapped p =
      if mapped then run_code (set_read_implies_exec p).read_implies_exec else exit (pos 1) none
