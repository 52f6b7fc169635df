-- ===== src/Fs/RamFile/Laws.antt =====
-- A file in memory as a function from positions to bytes, zero behind its end.
use chenlongos.Prelude.{
  ℕ, ◌+◌, ◌-◌, ◌%◌, ◌^◌, ◌<◌, ◌≤◌, ◌≡◌, refl, sym, ap, ◌∙◌, min, max, arith, true, ◌&&◌, some, List,
  ◌++◌, length, take, drop, replicate, ltb, leb, if◌then◌else◌, get_or, length-append, length-take,
  length-drop, length-replicate, get_or-append-left, get_or-append-right, get_or_beyond,
  get_or-take, get_or-drop, get_or_ext, get_or-replicate, dec_lt, mod-eq_of_lt,
}
use chenlongos.Fs.RamFile.{FileNode, resize, truncate, read_at, write_at}

-- The byte at a position.
abbrev pub byte : List ℕ → ℕ → ℕ
byte c i = get_or c i 0

length-resize : (c : List ℕ) (n : ℕ) → length (resize c n) ≡ n
unfolding resize
length-resize c n = ground (
  arith,
  length-take n c,
  length-append c (replicate (n - length c) 0),
  length-replicate {A = ℕ} (n - length c) 0,
)

byte-resize : (c : List ℕ) (n i : ℕ) → i < n → byte (resize c n) i ≡ byte c i
unfolding resize
byte-resize c n i h = elim (dec_lt i (length c)) [
  | yes p ↦
      ground (arith, get_or-take n c i 0 h, get_or-append-left c (replicate (n - length c) 0) i 0 p)
  | no p ↦ ground (
    arith,
    get_or-take n c i 0 h,
    get_or-append-right c (replicate (n - length c) 0) i 0 (omega arith),
    get_or-replicate {A = ℕ} (n - length c) (i - length c) 0,
    get_or_beyond c i 0 (omega arith),
  )
]

length-truncate : (n : FileNode) (size : ℕ) → length (truncate n size).content ≡ size
unfolding truncate
length-truncate n size = ground (arith, length-take size n.content, length-resize n.content size)

byte-truncate :
    (n : FileNode) (size i : ℕ)
    → byte (truncate n size).content i ≡ (if ltb i size then byte n.content i else 0)
unfolding truncate
byte-truncate n size i = elim (dec_lt i size) [
  | yes p ↦ ground (arith, get_or-take size n.content i 0 p, byte-resize n.content size i p)
  | no p ↦
      get_or_beyond (truncate n size).content i 0 (omega (arith, length-truncate n size))
      ∙ ground arith
]

-- `truncate` gives the file the size asked for; what is kept stays, and what is added is zero.
pub truncate_lem :
    (n : FileNode) (size : ℕ)
    → (length (truncate n size).content ≡ size)
      × ((i : ℕ) → byte (truncate n size).content i ≡ (if ltb i size then byte n.content i else 0))
unfolding truncate
truncate_lem n size = (length-truncate n size, λ i. byte-truncate n size i)

read_at-eq :
    (n : FileNode) (offset len : ℕ)
    → offset + len < 2 ^ 64
    → let start = min (length n.content) offset in
      let end = min (length n.content) (offset + len) in
      read_at n offset len ≡ some (take (end - start) (drop start n.content))
unfolding read_at
read_at-eq n offset len h =
    let fits : (offset + len) % 2 ^ 64 ≡ offset + len = mod-eq_of_lt h in
    let ordered : leb (min (length n.content) offset) (min (length n.content) (offset + len))
        ≡ true =
      ground arith in
    rw (fits, ordered) refl

-- `read_at` does not panic, and gives the bytes from the offset on, as many as there are and as the
-- buffer has room for.
pub read_at_lem :
    (n : FileNode) (offset len : ℕ)
    → offset + len < 2 ^ 64
    → (bs : List ℕ) × (read_at n offset len ≡ some bs)
      × (length bs ≡ min len (length n.content - offset))
      × ((i : ℕ) → i < length bs → byte bs i ≡ byte n.content (offset + i))
read_at_lem n offset len h =
    let c = n.content in
    let start = min (length c) offset in
    let end = min (length c) (offset + len) in
    let size : length (take (end - start) (drop start c)) ≡ min len (length c - offset) =
      omega (arith, length-take (end - start) (drop start c), length-drop start c) in
    (
      take (end - start) (drop start c),
      read_at-eq n offset len h,
      size,
      λ i l.
          let inside : i < end - start =
            omega (arith, length-take (end - start) (drop start c), length-drop start c) in
          let from : start + i ≡ offset + i = omega (arith, size) in
          get_or-take (end - start) (drop start c) i 0 inside
          ∙ (get_or-drop start c i 0 ∙ ap (byte c) from),
    )

-- What `write_at` leaves.
abbrev grown : List ℕ → ℕ → List ℕ
grown c end = if ltb (length c) end then resize c end else c

abbrev splice : List ℕ → ℕ → List ℕ → List ℕ
splice c offset buf =
    let end = offset + length buf in take offset c ++ (take (end - offset) buf ++ drop end c)

length-grown : (c : List ℕ) (end : ℕ) → length (grown c end) ≡ max (length c) end
length-grown c end = ground (arith, length-resize c end)

byte-grown : (c : List ℕ) (end i : ℕ) → byte (grown c end) i ≡ byte c i
byte-grown c end i = elim (dec_lt i end) [
  | yes p ↦ ground (arith, byte-resize c end i p)
  | no p ↦ elim (dec_lt (length c) end) [
    | yes q ↦
        get_or_beyond (grown c end) i 0 (omega (arith, length-grown c end))
        ∙ sym (get_or_beyond c i 0 (omega arith))
    | no q ↦ ground arith
  ]
]

length-splice :
    (c : List ℕ) (offset : ℕ) (buf : List ℕ)
    → offset + length buf ≤ length c
    → length (splice c offset buf) ≡ length c
length-splice c offset buf h =
    let end = offset + length buf in
    omega (
      arith,
      length-append (take offset c) (take (end - offset) buf ++ drop end c),
      length-append (take (end - offset) buf) (drop end c),
      length-take offset c,
      length-take (end - offset) buf,
      length-drop end c,
    )

byte-splice :
    (c : List ℕ) (offset : ℕ) (buf : List ℕ) (i : ℕ)
    → offset + length buf ≤ length c
    → byte (splice c offset buf) i
      ≡ (if leb offset i && ltb i (offset + length buf) then byte buf (i - offset) else byte c i)
byte-splice c offset buf i h =
    let end = offset + length buf in
    let a = take offset c in
    let b = take (end - offset) buf in
    let rest = drop end c in
    let la : length a ≡ offset = omega (arith, length-take offset c) in
    let lb : length b ≡ length buf = omega (arith, length-take (end - offset) buf) in
    elim (dec_lt i offset) [
      | yes p ↦
          get_or-append-left a (b ++ rest) i 0 (omega (arith, la))
          ∙ get_or-take offset c i 0 p
          ∙ ground arith
      | no p ↦
          let at : i - length a ≡ i - offset = omega (arith, la) in
          get_or-append-right a (b ++ rest) i 0 (omega (arith, la))
          ∙ ap (byte (b ++ rest)) at
          ∙ elim (dec_lt i end) [
            | yes q ↦
                get_or-append-left b rest (i - offset) 0 (omega (arith, lb))
                ∙ get_or-take (end - offset) buf (i - offset) 0 (omega arith)
                ∙ ground arith
            | no q ↦
                let back : end + (i - offset - length b) ≡ i = omega (arith, lb) in
                get_or-append-right b rest (i - offset) 0 (omega (arith, lb))
                ∙ get_or-drop end c (i - offset - length b) 0
                ∙ ap (byte c) back
                ∙ ground arith
          ]
    ]

write_at-eq :
    (n : FileNode) (offset : ℕ) (buf : List ℕ)
    → offset + length buf < 2 ^ 64
    → write_at n offset buf
      ≡ some (
        record { content = splice (grown n.content (offset + length buf)) offset buf },
        length buf,
      )
unfolding write_at
write_at-eq n offset buf h =
    let fits : (offset + length buf) % 2 ^ 64 ≡ offset + length buf = mod-eq_of_lt h in
    let ordered : leb offset (offset + length buf) ≡ true = ground arith in rw (fits, ordered) refl

pub write_at_lem :
    (n : FileNode) (offset : ℕ) (buf : List ℕ)
    → offset + length buf < 2 ^ 64
    → (n' : FileNode) × (write_at n offset buf ≡ some (n', length buf))
      × (length n'.content ≡ max (length n.content) (offset + length buf))
      × ((i : ℕ)
          → byte n'.content i ≡ (
              if leb offset i && ltb i (offset + length buf)
              then byte buf (i - offset)
              else byte n.content i))
write_at_lem n offset buf h =
    let end = offset + length buf in
    let c = grown n.content end in
    let room : end ≤ length c = omega (arith, length-grown n.content end) in
    (
      record { content = splice c offset buf },
      write_at-eq n offset buf h,
      length-splice c offset buf room ∙ length-grown n.content end,
      λ i.
          byte-splice c offset buf i room
          ∙ ap (λ x. if leb offset i && ltb i end then byte buf (i - offset) else x)
              (byte-grown n.content end i),
    )

-- What a `write_at` that ends below 2 ^ 64 wrote is read back from the same offset.
pub read_at-write_at :
    (n : FileNode) (offset : ℕ) (buf : List ℕ)
    → offset + length buf < 2 ^ 64
    → (n' : FileNode) × (write_at n offset buf ≡ some (n', length buf))
      × (read_at n' offset (length buf) ≡ some buf)
read_at-write_at n offset buf h =
    let (n', wrote, size, bytes) = write_at_lem n offset buf h in
    let (bs, got, count, same) = read_at_lem n' offset (length buf) h in
    let all : length bs ≡ length buf = omega (arith, count, size) in
    let equal : bs ≡ buf = get_or_ext bs buf 0 all (λ i l.
      let back : offset + i - offset ≡ i = omega arith in
      same i l ∙ bytes (offset + i) ∙ ground (arith, all, ap (byte buf) back)) in
    (n', wrote, got ∙ ap some equal)
