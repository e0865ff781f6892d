-- ===== src/Socket/Transfer/Buffers.antt =====
-- src/lthread_socket.c, the inner loop of lthread_writev: the bytes of an array of buffers.
use lthread_concurrent.Prelude.{
  ℕ, zero, suc, ◌+◌, ◌-◌, ◌≤◌, ◌≡◌, refl, ap, ◌∙◌, inl, inr, List, [], ◌∷◌, ◌++◌, length, arith,
  Bool-cases, ◌==◌, ltb, drop,
}
use lthread_concurrent.Socket.{Iovec}
use lthread_concurrent.Socket.Transfer.{advance}

-- The addresses of `n` bytes
abbrev pub bytes_from : (base n : ℕ) → List ℕ
bytes_from base zero = []
bytes_from base (suc n) = base ∷ bytes_from (base + 1) n

-- The addresses of the bytes that an array of buffers stands for
abbrev pub bytes_of : List Iovec → List ℕ
bytes_of [] = []
bytes_of (v ∷ vs) = bytes_from v.iov_base v.iov_len ++ bytes_of vs

length-bytes_from : (base n : ℕ) → length (bytes_from base n) ≡ n
length-bytes_from base zero = refl
length-bytes_from base (suc n) = omega (arith, length-bytes_from (base + 1) n)

drop-bytes_from :
    (n m base : ℕ) → n ≤ m → drop n (bytes_from base m) ≡ bytes_from (base + n) (m - n)
drop-bytes_from zero m base h = ground arith
drop-bytes_from (suc n) zero base h = absurd (omega arith)
drop-bytes_from (suc n) (suc m) base h = ground (arith, drop-bytes_from n m (base + 1))

drop-append_less : (n : ℕ) (xs ys : List ℕ) → n ≤ length xs → drop n (xs ++ ys) ≡ drop n xs ++ ys
drop-append_less zero xs ys h = refl
drop-append_less (suc n) [] ys h = absurd (omega arith)
drop-append_less (suc n) (x ∷ xs) ys h = drop-append_less n xs ys (omega arith)

drop-append_more :
    (n : ℕ) (xs ys : List ℕ) → length xs ≤ n → drop n (xs ++ ys) ≡ drop (n - length xs) ys
drop-append_more n [] ys h = ap (λ k. drop k ys) (omega arith)
drop-append_more zero (x ∷ xs) ys h = absurd (omega arith)
drop-append_more (suc n) (x ∷ xs) ys h =
    drop-append_more n xs ys (omega arith) ∙ ap (λ k. drop k ys) (omega arith)

-- The inner loop skips what has been written.
pub bytes_of-advance : (n : ℕ) (iov : List Iovec) → bytes_of (advance n iov) ≡ drop n (bytes_of iov)
unfolding advance
bytes_of-advance zero [] = refl
bytes_of-advance (suc n) [] = refl
bytes_of-advance n (v ∷ vs) = elim (Bool-cases (n == 0)) [
  | inl z ↦ ground arith
  | inr p ↦ elim (Bool-cases (ltb n v.iov_len)) [
    | inl l ↦ ground (
      arith,
      drop-append_less n (bytes_from v.iov_base v.iov_len) (bytes_of vs),
      drop-bytes_from n v.iov_len v.iov_base,
      length-bytes_from v.iov_base v.iov_len,
    )
    | inr g ↦ ground (
      arith,
      bytes_of-advance (n - v.iov_len) vs,
      drop-append_more n (bytes_from v.iov_base v.iov_len) (bytes_of vs),
      length-bytes_from v.iov_base v.iov_len,
    )
  ]
]
