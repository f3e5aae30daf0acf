-- ===== src/Gpio/Virt/Count.antt =====
-- modules/virt-int.c, `count_read`: the file that shows the number of interrupts. The kernel's
-- `simple_read_from_buffer` is a parameter, with what its documentation says of it.
use linux_riscv.Prelude.{
  ℕ, zero, suc, ◌+◌, ◌-◌, ◌≤◌, ◌<◌, ◌≡◌, refl, sym, ap, ◌∙◌, min, List, [], ◌∷◌, ◌++◌, ℤ, pos,
  arith, length, length-append, take, drop, take-append, take_all, take-nil, length-drop,
}
use linux_riscv.Prelude.Decimal.{decimal, value, value-decimal, length-decimal}
use linux_riscv.Gpio.Virt.{State}

pub record ReadResult : Type 0 where
  pub ret : ℤ
  pub delivered : List ℕ
  pub ppos : ℕ

-- `simple_read_from_buffer(to, count, ppos, from, available)`.
abbrev pub SimpleRead : Type 0
SimpleRead = (count ppos : ℕ) → (from : List ℕ) → (available : ℕ) → ReadResult

-- Without a fault, the bytes from the position on are delivered as far as they go, and the position
-- moves behind them.
pub record SimpleReadLaws (simple_read : SimpleRead) : Type 0 where
  pub reads :
      (count ppos : ℕ) (from : List ℕ) (available : ℕ)
      → available ≤ length from
      → simple_read count ppos from available ≡ (
          let n = min count (available - ppos) in
          record {
            ret = pos n;
            delivered = take n (drop ppos (take available from));
            ppos = ppos + n;
          })

abbrev pub buf_size : ℕ
buf_size = 32

-- `snprintf(buf, size, "%ld\n", count)`: what the array holds, over what it held, and the length of
-- the text. At most `size - 1` bytes and the NUL are stored.
pub snprintf_count : (buf : List ℕ) → ℕ → List ℕ × ℕ
snprintf_count buf count =
    let line = decimal count ++ b'\n' ∷ [] in
    let stored = take (buf_size - 1) line ++ 0 ∷ [] in
    (stored ++ drop (length stored) buf, length line)

pub count_read : SimpleRead → (buf : List ℕ) → State → (len offp : ℕ) → ReadResult
unfolding snprintf_count
count_read simple_read buf s len offp =
    let (text, ret) = snprintf_count buf s.count in simple_read len offp text ret

abbrev pub count_line : ℕ → List ℕ
count_line n = decimal n ++ b'\n' ∷ []

length-count_line : (n : ℕ) → length (count_line n) ≤ 11
length-count_line n = omega (arith, length-append (decimal n) (b'\n' ∷ []), length-decimal n)

line_stored :
    (buf : List ℕ) (n : ℕ)
    → (take (length (count_line n)) (snprintf_count buf n).0 ≡ count_line n)
      × ((snprintf_count buf n).1 ≡ length (count_line n))
      × (length (count_line n) ≤ length (snprintf_count buf n).0)
unfolding snprintf_count
line_stored buf n =
    let short = length-count_line n in
    let whole : take (buf_size - 1) (count_line n) ≡ count_line n =
      take_all (buf_size - 1) (count_line n) (omega (arith, short)) in
    let shown : take (buf_size - 1) (count_line n) ++ 0 ∷ [] ≡ count_line n ++ 0 ∷ [] =
      ap (λ (l : List ℕ). l ++ 0 ∷ []) whole in
    (
      take-append (length (count_line n)) _ _ (
            omega (
              arith,
              short,
              length-append (take (buf_size - 1) (count_line n)) (0 ∷ []),
              ap length shown,
              length-append (count_line n) (0 ∷ []),
            ))
          ∙ ap (take (length (count_line n))) shown
          ∙ take-append (length (count_line n)) (count_line n) (0 ∷ []) (omega arith)
          ∙ take_all (length (count_line n)) (count_line n) (omega arith),
      refl,
      omega (
        arith,
        length-append (take (buf_size - 1) (count_line n) ++ 0 ∷ [])
            (drop (length (take (buf_size - 1) (count_line n) ++ 0 ∷ [])) buf),
        ap length shown,
        length-append (count_line n) (0 ∷ []),
      ),
    )

-- The bytes that a reader is given by reads of these lengths one after the other, from `offp` on.
pub read_counts : SimpleRead → (buf : List ℕ) → State → (lens : List ℕ) → (offp : ℕ) → List ℕ
read_counts simple_read buf s [] offp = []
read_counts simple_read buf s (len ∷ lens) offp =
    let r = count_read simple_read buf s len offp in
    r.delivered ++ read_counts simple_read buf s lens r.ppos

abbrev pub total : List ℕ → ℕ
total [] = 0
total (len ∷ lens) = len + total lens

take-take_rest :
    (m c t : ℕ) (xs : List ℕ)
    → m ≡ min c (length xs)
    → take m xs ++ take t (drop m xs) ≡ take (c + t) xs
take-take_rest zero zero t xs e = ap (λ (k : ℕ). take k xs) (omega arith)
take-take_rest zero (suc c) t [] e = take-nil t ∙ sym (take-nil (suc c + t))
take-take_rest zero (suc c) t (x ∷ xs) e = absurd (omega arith)
take-take_rest (suc m) c t [] e = absurd (omega arith)
take-take_rest (suc m) zero t (x ∷ xs) e = absurd (omega arith)
take-take_rest (suc m) (suc c) t (x ∷ xs) e =
    let e' : suc (c + t) ≡ suc c + t = omega arith in
    ap (◌∷◌ x) (take-take_rest m c t xs (omega arith)) ∙ ap (λ (k : ℕ). take k (x ∷ xs)) e'

drop-drop : (p m : ℕ) (xs : List ℕ) → drop m (drop p xs) ≡ drop (p + m) xs
drop-drop zero m xs = ap (λ (k : ℕ). drop k xs) (omega arith)
drop-drop (suc p) zero [] =
    let e : suc p ≡ suc p + zero = omega arith in ap (λ (k : ℕ). drop k []) e
drop-drop (suc p) (suc m) [] =
    let e : suc (p + suc m) ≡ suc p + suc m = omega arith in ap (λ (k : ℕ). drop k []) e
drop-drop (suc p) m (x ∷ xs) =
    let e : suc (p + m) ≡ suc p + m = omega arith in
    drop-drop p m xs ∙ ap (λ (k : ℕ). drop k (x ∷ xs)) e

module _ {simple_read : SimpleRead} (laws : SimpleReadLaws simple_read) (buf : List ℕ)
    (s : State) where
  count_read-line :
      (len offp : ℕ)
      → count_read simple_read buf s len offp ≡ (
          let n = min len (length (count_line s.count) - offp) in
          record {
            ret = pos n;
            delivered = take n (drop offp (count_line s.count));
            ppos = offp + n;
          })
  unfolding count_read
  count_read-line len offp =
      let (text, ret, room) = line_stored buf s.count in
      let avail : (snprintf_count buf s.count).1 ≤ length (snprintf_count buf s.count).0 =
        rw ret room in
      laws.reads len offp (snprintf_count buf s.count).0 (snprintf_count buf s.count).1 avail
      ∙ (rw (ret, text) refl)

  read_counts-line :
      (lens : List ℕ) (offp : ℕ)
      → read_counts simple_read buf s lens offp ≡ take (total lens) (drop offp (count_line s.count))
  unfolding read_counts
  read_counts-line [] offp = refl
  read_counts-line (len ∷ lens) offp =
      let n = min len (length (count_line s.count) - offp) in
      rw (count_read-line len offp, read_counts-line lens (offp + n))
        (ap (λ (l : List ℕ). take n (drop offp (count_line s.count)) ++ take (total lens) l)
            (sym (drop-drop offp n (count_line s.count)))
          ∙ take-take_rest n len (total lens) (drop offp (count_line s.count))
              (ap (min len) (sym (length-drop offp (count_line s.count)))))

  -- For a count below 2 ^ 31, reads of any lengths that make up at least eleven bytes deliver
  -- together its decimal text and a newline, and the text stands for the count.
  pub read_counts-value :
      (lens : List ℕ)
      → s.count < 2147483648
      → 11 ≤ total lens
      → (read_counts simple_read buf s lens 0 ≡ decimal s.count ++ b'\n' ∷ [])
        × (value (decimal s.count) ≡ s.count)
  read_counts-value lens small enough = (
    read_counts-line lens 0
        ∙ take_all (total lens) (count_line s.count) (omega (arith, length-count_line s.count)),
    value-decimal s.count small,
  )
