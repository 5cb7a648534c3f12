-- ===== src/Buffer/Contents.antt =====
-- The bytes in use of a buffer, and what the operations do to them.
use tcp_striper.Base.{
  [], none, Option, ◌<◌, ℕ, ◌+◌, ◌-◌, ◌≤◌, ◌≡◌, refl, sym, ap, ◌∙◌, some, ◌++◌, append_assoc, arith,
  length, take, drop, replicate, length-append, length-take, length-drop, length-replicate,
  take-append_exact, leb, drop-append, drop-take, drop-drop,
}
use tcp_striper.Serialize.{Bytes}
use tcp_striper.Run.{ok, assert_holds}
use tcp_striper.Buffer.{IoBuffer, write_at, zeroed, alloc_io_buffer, append_bytes, consume}

-- The bytes in use.
unfoldable pub contents : IoBuffer → Bytes
contents b = take b.size (drop b.head b.bytes)

-- io_buffer.h: "data <= head", "head + size <= data + capacity", "capacity bytes".
pub record IsValid (b : IoBuffer) : Type 0 where
  pub within : b.head + b.size ≤ b.capacity
  pub backed : length b.bytes ≡ b.capacity

pub length-contents : (b : IoBuffer) → IsValid b → length (contents b) ≡ b.size
unfolding contents
length-contents b v =
    omega (arith, length-take b.size (drop b.head b.bytes), length-drop b.head b.bytes)

pub length-write_at :
    (pos : ℕ) (bs mem : Bytes)
    → pos + length bs ≤ length mem
    → length (write_at pos bs mem) ≡ length mem
length-write_at pos bs mem h = omega (
  arith,
  length-append (take pos mem) (bs ++ drop (pos + length bs) mem),
  length-append bs (drop (pos + length bs) mem),
  length-take pos mem,
  length-drop (pos + length bs) mem,
)

-- The `n` bytes from `h` on, after `bs` has been written behind them.
pub take-drop-write_at :
    (h n : ℕ) (bs mem : Bytes)
    → h + n + length bs ≤ length mem
    → take (n + length bs) (drop h (write_at (h + n) bs mem)) ≡ take n (drop h mem) ++ bs
take-drop-write_at h n bs mem room =
    ap (take (n + length bs)) (
      drop-append h (take (h + n) mem) (bs ++ rest) (omega (arith, length-take (h + n) mem))
      ∙ ap (λ (l : Bytes). l ++ (bs ++ rest)) (drop-take (h + n) h n mem refl)
      ∙ sym (append_assoc (take n (drop h mem)) bs rest))
    ∙ take-append_exact (n + length bs) (take n (drop h mem) ++ bs) rest (
        omega (
          arith,
          length-append (take n (drop h mem)) bs,
          length-take n (drop h mem),
          length-drop h mem,
        ))
  where
    rest : Bytes
    rest = drop (h + n + length bs) mem

module _ (b : IoBuffer) (v : IsValid b) where
  -- A read into the space behind the bytes in use of a valid buffer, which has room for it,
  -- appends the bytes to its contents.
  pub contents-append_bytes :
      (bs : Bytes)
      → b.head + b.size + length bs ≤ b.capacity
      → contents (append_bytes b bs) ≡ contents b ++ bs
  unfolding contents append_bytes
  contents-append_bytes bs room = take-drop-write_at b.head b.size bs b.bytes (omega arith)

  pub append_bytes-IsValid :
      (bs : Bytes) → b.head + b.size + length bs ≤ b.capacity → IsValid (append_bytes b bs)
  unfolding append_bytes
  append_bytes-IsValid bs room =
      omega (arith, length-write_at (b.head + b.size) bs b.bytes (omega arith))

  pub contents-consume : (n : ℕ) → n ≤ b.size → contents (consume b n) ≡ drop n (contents b)
  unfolding contents consume
  contents-consume n h =
      ap (take (b.size - n)) (sym (drop-drop (b.head + n) b.head n b.bytes refl))
      ∙ sym (drop-take b.size n (b.size - n) (drop b.head b.bytes) (omega arith))

  pub size-consume : (n : ℕ) → (consume b n).size ≡ b.size - n
  unfolding consume
  size-consume n = refl

  pub consume-IsValid : (n : ℕ) → n ≤ b.size → IsValid (consume b n)
  unfolding consume
  consume-IsValid n h = omega arith

-- A fresh buffer holds what it is given, and is valid.
pub alloc_io_buffer-contents :
    (capacity : ℕ) (bs : Bytes)
    → length bs ≤ capacity
    → (b : IoBuffer) × (alloc_io_buffer capacity (some bs) ≡ ok b)
      × IsValid b
      × (contents b ≡ bs)
      × (b.size ≡ length bs)
      × (b.capacity ≡ capacity)
      × (b.head ≡ 0)
unfolding alloc_io_buffer contents
alloc_io_buffer-contents capacity bs h =
    let zeros : Bytes = replicate capacity 0 in
    (
      record (zeroed capacity) { size = length bs; bytes = write_at 0 bs zeros },
      assert_holds (leb (length bs) capacity) _ (ground arith),
      omega (
        arith,
        length-append bs (drop (0 + length bs) zeros),
        length-drop (0 + length bs) zeros,
        length-replicate {A = ℕ} capacity 0,
      ),
      take-append_exact (length bs) bs (drop (0 + length bs) zeros) refl,
      refl,
      refl,
      refl,
    )

pub zeroed-IsValid : (capacity : ℕ) → IsValid (zeroed capacity)
zeroed-IsValid capacity = omega (arith, length-replicate {A = ℕ} capacity 0)

-- The bytes that are kept, and that the buffer which holds them is valid and not empty.
unfoldable pub kept : Option IoBuffer → Bytes
kept none = []
kept (some b) = contents b

abbrev pub Holds : Option IoBuffer → Type 0
Holds none = Unit {0}
Holds (some b) = IsValid b × (0 < b.size)

pub alloc_io_buffer-zeroed : (capacity : ℕ) → alloc_io_buffer capacity none ≡ ok (zeroed capacity)
unfolding alloc_io_buffer
alloc_io_buffer-zeroed capacity = refl
