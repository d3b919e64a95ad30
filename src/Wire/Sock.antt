-- ===== src/Wire/Sock.antt =====
-- What `read_sock` and `read_sock_bulk` of src/util.c take from a socket, however its bytes arrive.
use mathlib.Core.Path.{subst}
use mathlib.Core.List.{append_assoc}
use udepot_hopscotch.Base.{
  ℕ, zero, suc, ◌+◌, ◌-◌, ◌*◌, ◌<◌, ◌≤◌, ◌≡◌, refl, ◌∙◌, sym, ap, ◌⊎◌, inl, inr, Bool, true, false,
  List, [], ◌∷◌, ◌++◌, arith, length, length-append, length-take, take, drop, take-append,
  drop-append, ltb, ◌==◌, if◌then◌else◌, Bool-cases,
}
use udepot_hopscotch.Wire.{
  Arrival, again, avail, SockEnd, failed, closed, received, waiting, read, read_loop, read_sock,
  whole, read_sock_bulk,
}

take-drop : {A : Type 0} (n : ℕ) (xs : List A) → take n xs ++ drop (length (take n xs)) xs ≡ xs
take-drop zero xs = refl
take-drop (suc n) [] = refl
take-drop (suc n) (x ∷ xs) = ap (λ t. x ∷ t) (take-drop n xs)

length-take-le : {A : Type 0} (n : ℕ) (xs : List A) → length (take n xs) ≤ n
length-take-le zero xs = omega arith
length-take-le (suc n) [] = omega arith
length-take-le (suc n) (x ∷ xs) = omega (arith, length-take-le n xs)

-- A result of the loop: no byte is lost, made up or moved, there are no more than `count`, and the loop
-- stopped at `enough` of them or at `count`.
abbrev pub Takes : (List ℕ → Bool) → ℕ → List ℕ → SockEnd × List ℕ → Type 0
Takes enough count all (received b, left) =
    (b ++ left ≡ all) × (length b ≤ count) × ((enough b ≡ true) ⊎ (length b ≡ count))
Takes enough count all (waiting b, left) = (b ++ left ≡ all) × (length b < count)
Takes enough count all (closed, left) = Unit {0}
Takes enough count all (failed, left) = Unit {0}

done :
    (enough : List ℕ → Bool) (count : ℕ) (stream buf : List ℕ)
    → length buf ≤ count
    → ltb (length buf) count ≡ false
    → Takes enough count (buf ++ stream) (received buf, stream)
done enough count stream buf le e = (refl, le, inr (ground arith))

read_loop-Takes :
    (enough : List ℕ → Bool) (count : ℕ) (rs : List Arrival) (stream buf : List ℕ)
    → length buf ≤ count
    → Takes enough count (buf ++ stream) (read_loop enough count rs stream buf)
unfolding read_loop
read_loop-Takes enough count [] stream buf le = elim (Bool-cases (ltb (length buf) count)) [
  | inl e ↦ rw e (refl, ground arith)
  | inr e ↦ rw e (done enough count stream buf le e)
]
read_loop-Takes enough count (again ∷ rs) stream buf le =
    elim (Bool-cases (ltb (length buf) count)) [
      | inl e ↦ elim (Bool-cases (length buf == 0)) [
        | inl z ↦ rw (e, z) tt
        | inr nz ↦ rw (e, nz) (read_loop-Takes enough count rs stream buf le)
      ]
      | inr e ↦ rw e (done enough count stream buf le e)
    ]
read_loop-Takes enough count (avail n ∷ rs) stream buf le =
    elim (Bool-cases (ltb (length buf) count)) [
      | inr e ↦ rw e (done enough count stream buf le e)
      | inl e ↦ elim (Bool-cases (length got == 0)) [
        | inl z ↦ rw (e, z) tt
        | inr nz ↦ elim (Bool-cases (enough (buf ++ got))) [
          | inl stop ↦ rw (e, nz, stop) (all, room, inl stop)
          | inr more ↦
              rw (e, nz, more)
                (subst (λ l. Takes enough count l (read_loop enough count rs left (buf ++ got))) all
                  (read_loop-Takes enough count rs left (buf ++ got) room))
        ]
      ]
    ]
  where
    got : List ℕ
    got = read n (count - length buf) stream

    left : List ℕ
    left = drop (length got) stream

    all : (buf ++ got) ++ left ≡ buf ++ stream
    all =
        append_assoc buf got left
        ∙ ap (λ l. buf ++ l)
            (take-drop (if ltb n (count - length buf) then n else count - length buf) stream)

    room : length (buf ++ got) ≤ count
    room = ground (
      arith,
      length-append buf got,
      length-take-le (if ltb n (count - length buf) then n else count - length buf) stream,
    )

-- `read_sock` returns exactly `count` bytes, the next ones of the stream in their order, if it returns
-- any; it gives up without an error only where fewer have arrived.
abbrev pub TakesAll : ℕ → List ℕ → SockEnd × List ℕ → Type 0
TakesAll count all (received b, left) = (b ++ left ≡ all) × (length b ≡ count)
TakesAll count all (waiting b, left) = (b ++ left ≡ all) × (length b < count)
TakesAll count all (closed, left) = Unit {0}
TakesAll count all (failed, left) = Unit {0}

all_of :
    (count : ℕ) (all : List ℕ) (r : SockEnd × List ℕ)
    → Takes (λ buf. false) count all r
    → TakesAll count all r
all_of count all (received b, left) (e, le, inl never) = cc
all_of count all (received b, left) (e, le, inr is) = (e, is)
all_of count all (waiting b, left) t = t
all_of count all (closed, left) t = tt
all_of count all (failed, left) t = tt

pub read_sock-TakesAll :
    (count : ℕ) (rs : List Arrival) (stream : List ℕ)
    → TakesAll count stream (read_sock count rs stream)
unfolding read_sock
read_sock-TakesAll count rs stream =
    all_of count stream _ (read_loop-Takes (λ buf. false) count rs stream [] (omega arith))

pub read_sock_bulk-Takes :
    (max_objs align : ℕ) (rs : List Arrival) (stream : List ℕ)
    → Takes (whole align) (align * max_objs) stream (read_sock_bulk max_objs align rs stream)
unfolding read_sock_bulk
read_sock_bulk-Takes max_objs align rs stream =
    read_loop-Takes (whole align) (align * max_objs) rs stream [] (omega arith)

-- Every `read` finds something.
abbrev pub AllReady : List Arrival → Type 0
AllReady [] = Unit {0}
AllReady (again ∷ rs) = ⊥
AllReady (avail n ∷ rs) = (0 < n) × AllReady rs

read_some :
    (n room : ℕ) (stream : List ℕ)
    → 0 < n
    → 0 < room
    → room ≤ length stream
    → (0 < length (read n room stream)) × (length (read n room stream) ≤ room)
read_some n room stream pos some_room enough =
    ground (arith, length-take (if ltb n room then n else room) stream)

loop_ready :
    (count : ℕ) (rs : List Arrival) (stream buf : List ℕ)
    → AllReady rs
    → count ≤ length buf + length rs
    → count ≤ length buf + length stream
    → (b : List ℕ) × (left : List ℕ) × (read_loop (λ buf. false) count rs stream buf
        ≡ (received b, left))
unfolding read_loop
loop_ready count [] stream buf ready reads enough =
    let full : ltb (length buf) count ≡ false = ground arith in (buf, stream, rw full)
loop_ready count (again ∷ rs) stream buf ready reads enough = absurd ready
loop_ready count (avail n ∷ rs) stream buf ready reads enough =
    elim (Bool-cases (ltb (length buf) count)) [
      | inr full ↦ (buf, stream, rw full)
      | inl more ↦
          let some_got =
            read_some n (count - length buf) stream ready.0 (ground arith) (omega arith) in
          let nz : (length got == 0) ≡ false = ground arith in
          let (b, rest, e) =
            loop_ready count rs left (buf ++ got) ready.1 (omega (arith, length-append buf got))
              (omega (arith, length-append buf got, length_left)) in
          (b, rest, rw (more, nz) e)
    ]
  where
    got : List ℕ
    got = read n (count - length buf) stream

    left : List ℕ
    left = drop (length got) stream

    length_left : length stream ≡ length got + length left
    length_left =
        ap (λ (l : List ℕ). length l)
          (sym (take-drop (if ltb n (count - length buf) then n else count - length buf) stream))
        ∙ length-append got left

first_of :
    (b left all : List ℕ) (count : ℕ) → b ++ left ≡ all → length b ≡ count → b ≡ take count all
first_of b left all count e len = sym (take-append b left) ∙ (λ i. take (len i) (e i))

rest_of :
    (b left all : List ℕ) (count : ℕ) → b ++ left ≡ all → length b ≡ count → left ≡ drop count all
rest_of b left all count e len = sym (drop-append b left) ∙ (λ i. drop (len i) (e i))

-- `read_sock` does not depend on how the bytes arrive: with `count` reads that find something, and as
-- many bytes to come, it returns the first `count` bytes of the stream and leaves the others.
pub read_sock_total :
    (count : ℕ) (rs : List Arrival) (stream : List ℕ)
    → AllReady rs
    → count ≤ length rs
    → count ≤ length stream
    → read_sock count rs stream ≡ (received (take count stream), drop count stream)
unfolding read_sock
read_sock_total count rs stream ready reads enough =
    let (b, left, e) = loop_ready count rs stream [] ready (omega arith) (omega arith) in
    let t = subst (TakesAll count stream) e (read_sock-TakesAll count rs stream) in
    e ∙ (λ i.
      (received (first_of b left stream count t.0 t.1 i), rest_of b left stream count t.0 t.1 i))
