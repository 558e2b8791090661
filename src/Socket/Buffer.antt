-- ===== src/Socket/Buffer.antt =====
-- libserveez/socket.c: a receive or a send buffer, and `svz_sock_reduce_recv` and
-- `svz_sock_reduce_send`, whose code is the same.
use serveez.Base.{
  ==_cases, Bool-cases, List, ap, arith, drop, drop-take, if◌then◌else◌, inl, inr, length,
  length-drop, length-take, ltb, ltb_cases, not, refl, sym, take, take-append_left, take-take, true,
  ℕ, ◌&&◌, ◌+◌, ◌-◌, ◌==◌, ◌∙◌, ◌≡◌, ◌≤◌,
}
use serveez.Array.{memmove}
use serveez.Array.Invariant.{length-memmove}

-- `recv_buffer` and `recv_buffer_fill`, or `send_buffer` and `send_buffer_fill`.
pub record Buffer : Type 0 where
  pub cells : List ℕ
  pub fill : ℕ

-- The data in the buffer.
abbrev pub filled : Buffer → List ℕ
filled b = take b.fill b.cells

-- For a `len` that is not negative and at most the fill.
unfoldable pub reduce : ℕ → Buffer → Buffer
reduce len b =
    let moved = memmove b.cells 0 len (b.fill - len) in
    record {
      cells = if not (len == 0) && ltb len b.fill then moved else b.cells;
      fill = b.fill - len;
    }

-- The buffer keeps its size.
pub length-reduce :
    (len : ℕ) (b : Buffer) → b.fill ≤ length b.cells → length (reduce len b).cells ≡ length b.cells
unfolding reduce
length-reduce len b inside = elim (Bool-cases (not (len == 0) && ltb len b.fill)) [
  | inr e ↦ rw e refl
  | inl e ↦
      rw e
        (length-memmove b.cells 0 len (b.fill - len) (omega (arith, inside)) (below len b e inside))
]
  where
    below :
        (n : ℕ) (c : Buffer)
        → (not (n == 0) && ltb n c.fill) ≡ true
        → c.fill ≤ length c.cells
        → n + (c.fill - n) ≤ length c.cells
    below n c e h = elim (ltb_cases n c.fill) [
      | inl (_, less) ↦ omega (arith, less, h)
      | inr (f, _) ↦ ground arith
    ]

-- The first `len` bytes are gone, and the others follow from the start.
pub reduce-filled :
    (len : ℕ) (b : Buffer) → b.fill ≤ length b.cells → filled (reduce len b) ≡ drop len (filled b)
unfolding reduce
reduce-filled len b inside = elim (==_cases len 0) [
  | inl (e, none_gone) ↦ rw none_gone (ap (λ n. take n b.cells) (omega arith))
  | inr (e, some_gone) ↦ elim (ltb_cases len b.fill) [
    | inl (f, less) ↦
        let n = b.fill - len in
        let kept = take n (drop len b.cells) in
        let long : n ≤ length kept =
          omega (arith, length-take n (drop len b.cells), length-drop len b.cells) in
        rw (e, f)
          (take-append_left n kept (drop (0 + n) b.cells) long
            ∙ take-take n (drop len b.cells)
            ∙ sym (drop-take len b.fill b.cells))
    | inr (f, all) ↦
        let n : b.fill - len ≡ 0 = omega arith in
        rw (e, f) (rw (drop-take len b.fill b.cells, n) refl)
  ]
]
