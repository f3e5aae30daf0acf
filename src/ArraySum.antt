-- ===== src/ArraySum.antt =====
-- C/array.c: two passes over a pair of matrices, once by rows and once by columns. A matrix is a
-- function of its indices; each loop runs up to its bound, the last round outermost. The values stay
-- below 2 ^ 31 for the size 1000, so `int` does not overflow.
mod Tests
use linux_riscv.Prelude.{
  ℕ, zero, suc, ◌+◌, ◌*◌, ◌≤◌, ◌<◌, ◌^◌, ◌≡◌, sym, ◌∙◌, ◌&&◌, arith, ltb, ◌==◌, if◌then◌else◌,
  Bool-cases, inl, inr,
}

abbrev pub array_size : ℕ
array_size = 1000

abbrev pub Matrix : Type 0
Matrix = ℕ → ℕ → ℕ

-- `a[i][j] = v`
pub assign : Matrix → ℕ → ℕ → ℕ → Matrix
assign a i j v x y = if x == i && y == j then v else a x y

-- `for (j = 0; j < n; j++) body i j` and the loop around it; the same with the loops exchanged.
pub row : (body : ℕ → ℕ → Matrix → Matrix) → ℕ → ℕ → Matrix → Matrix
row body zero i a = a
row body (suc n) i a = body i n (row body n i a)

pub by_rows : (body : ℕ → ℕ → Matrix → Matrix) → ℕ → ℕ → Matrix → Matrix
by_rows body n zero a = a
by_rows body n (suc m) a = row body n m (by_rows body n m a)

pub column : (body : ℕ → ℕ → Matrix → Matrix) → ℕ → ℕ → Matrix → Matrix
column body zero j a = a
column body (suc m) j a = body m j (column body m j a)

pub by_columns : (body : ℕ → ℕ → Matrix → Matrix) → ℕ → ℕ → Matrix → Matrix
by_columns body m zero a = a
by_columns body m (suc n) a = column body m n (by_columns body m n a)

-- The bodies: `A[i][j] = B[i][j] = i + j` for one of the two, and `A[i][j] += B[i][j] + i + j`.
pub set_body : ℕ → ℕ → Matrix → Matrix
unfolding assign
set_body i j a = assign a i j (i + j)

pub add_body : Matrix → ℕ → ℕ → Matrix → Matrix
unfolding assign
add_body b i j a = assign a i j (a i j + (b i j + i + j))

pub matrices : Matrix → Matrix → ℕ → Matrix × Matrix
matrices a b n = (by_rows set_body n n a, by_rows set_body n n b)

-- `main`, from the first contents of the two matrices to the last of the first.
pub main : Matrix → Matrix → ℕ → Matrix
unfolding matrices
main a b n =
    let (a₁, b₁) = matrices a b n in by_columns (add_body b₁) n n (by_rows (add_body b₁) n n a₁)

row-set :
    (n i : ℕ) (a : Matrix) (x y : ℕ)
    → row set_body n i a x y ≡ (if x == i && ltb y n then i + y else a x y)
unfolding row set_body
row-set zero i a x y = ground arith
row-set (suc n) i a x y = ground (arith, row-set n i a x y)

by_rows-set :
    (n m : ℕ) (a : Matrix) (x y : ℕ)
    → by_rows set_body n m a x y ≡ (if ltb x m && ltb y n then x + y else a x y)
unfolding by_rows
by_rows-set n zero a x y = ground arith
by_rows-set n (suc m) a x y =
    ground (arith, row-set n m (by_rows set_body n m a) x y, by_rows-set n m a x y)

module _ (b : Matrix) where
  row-add :
      (n i : ℕ) (a : Matrix) (x y : ℕ)
      → row (add_body b) n i a x y ≡ (if x == i && ltb y n then a x y + (b x y + x + y) else a x y)
  unfolding row add_body
  row-add zero i a x y = ground arith
  row-add (suc n) i a x y = elim (Bool-cases (x == i && y == n)) [
    | inl hit ↦ ground (arith, row-add n i a x y, row-add n i a i n)
    | inr miss ↦ ground (arith, row-add n i a x y)
  ]

  by_rows-add :
      (n m : ℕ) (a : Matrix) (x y : ℕ)
      → by_rows (add_body b) n m a x y
        ≡ (if ltb x m && ltb y n then a x y + (b x y + x + y) else a x y)
  unfolding by_rows
  by_rows-add n zero a x y = ground arith
  by_rows-add n (suc m) a x y =
      ground (arith, row-add n m (by_rows (add_body b) n m a) x y, by_rows-add n m a x y)

  column-add :
      (m j : ℕ) (a : Matrix) (x y : ℕ)
      → column (add_body b) m j a x y
        ≡ (if ltb x m && y == j then a x y + (b x y + x + y) else a x y)
  unfolding column add_body
  column-add zero j a x y = ground arith
  column-add (suc m) j a x y = elim (Bool-cases (x == m && y == j)) [
    | inl hit ↦ ground (arith, column-add m j a x y, column-add m j a m j)
    | inr miss ↦ ground (arith, column-add m j a x y)
  ]

  by_columns-add :
      (m n : ℕ) (a : Matrix) (x y : ℕ)
      → by_columns (add_body b) m n a x y
        ≡ (if ltb x m && ltb y n then a x y + (b x y + x + y) else a x y)
  unfolding by_columns
  by_columns-add m zero a x y = ground arith
  by_columns-add m (suc n) a x y =
      ground (arith, column-add m n (by_columns (add_body b) m n a) x y, by_columns-add m n a x y)

  -- The pass by columns computes the same matrix as the pass by rows.
  pub by_columns-by_rows :
      (n : ℕ) (a : Matrix) (x y : ℕ)
      → by_columns (add_body b) n n a x y ≡ by_rows (add_body b) n n a x y
  by_columns-by_rows n a x y = by_columns-add n n a x y ∙ sym (by_rows-add n n a x y)

-- After both passes every element inside the bound is five times the sum of its indices, whatever
-- the matrices held, and every other is unchanged; for a bound up to 1000 no element reaches 2 ^
-- 31.
pub main-value :
    (a b : Matrix) (n x y : ℕ)
    → (main a b n x y ≡ (if ltb x n && ltb y n then 5 * (x + y) else a x y))
      × (n ≤ array_size → x < n → y < n → main a b n x y < 2 ^ 31)
unfolding main matrices
main-value a b n x y =
    let a₁ = by_rows set_body n n a in
    let b₁ = by_rows set_body n n b in
    let value : by_columns (add_body b₁) n n (by_rows (add_body b₁) n n a₁) x y
        ≡ (if ltb x n && ltb y n then 5 * (x + y) else a x y) =
      ground (
        arith,
        by_columns-add b₁ n n (by_rows (add_body b₁) n n a₁) x y,
        by_rows-add b₁ n n a₁ x y,
        by_rows-set n n a x y,
        by_rows-set n n b x y,
      ) in
    (value, λ h p q. ground (arith, value))
