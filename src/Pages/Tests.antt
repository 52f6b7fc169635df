-- ===== src/Pages/Tests.antt =====
-- A set of bits to run the allocator of pages of crates/allocator/src/bitmap.rs over, and runs.
use chenlongos.Prelude.{
  ℕ_discrete, ℕ, zero, suc, ◌%◌, ◌^◌, ◌≡◌, refl, ap, ◌∙◌, subst, Bool, true, false, ◌&&◌, ◌||◌,
  Option, none, some, ltb, leb, ◌==◌, ==_iff, if◌then◌else◌, arith,
}
use chenlongos.Addr.{wrapping_sub}
use chenlongos.Pages.Bits.{BitAlloc, BitAllocLaws, in_run}
use chenlongos.Pages.{
  ok, err, invalid_param, BitmapPageAllocator, new, init, address, alloc_pages, dealloc_pages,
}
use chenlongos.Pages.Allocation.{dealloc_frees_one}

abbrev all_free : (ℕ → Bool) → ℕ → ℕ → Bool
all_free b i zero = true
all_free b i (suc n) = b i && all_free b (suc i) n

abbrev take_run : (ℕ → Bool) → ℕ → ℕ → ℕ → Bool
take_run b i n j = if in_run i n j then false else b j

abbrev search_below : ℕ → (ℕ → Bool) → ℕ → ℕ → Option (ℕ × (ℕ → Bool))
search_below zero b n log = none
search_below (suc i) b n log =
    let rest = search_below i b n log in
    if i % 2 ^ log == 0 && all_free b i n then some (i, take_run b i n) else rest

abbrev eight_bits : BitAlloc
eight_bits = record {
  Bits = ℕ → Bool;
  is_free = λ b. b;
  default = λ j. false;
  insert = λ b lo hi j. leb lo j && ltb j hi || b j;
  alloc = λ b. search_below 8 b 1 0;
  alloc_contiguous = λ b n log. search_below 8 b n log;
  dealloc = λ b i j. if j == i then true else b j;
}

and_left : (x y : Bool) → (x && y) ≡ true → x ≡ true
and_left true y e = refl
and_left false y e = e

and_right : (x y : Bool) → (x && y) ≡ true → y ≡ true
and_right true y e = e
and_right false y e = absurd (ground (arith, e))

all_free_lem :
    (b : ℕ → Bool) (i n : ℕ) → all_free b i n ≡ true → (j : ℕ) → in_run i n j ≡ true → b j ≡ true
all_free_lem b i zero e j r = absurd (ground arith)
all_free_lem b i (suc n) e j r = elim (ℕ_discrete j i) [
  | yes same ↦ ap b same ∙ and_left (b i) (all_free b (suc i) n) e
  | no other ↦
      all_free_lem b (suc i) n (and_right (b i) (all_free b (suc i) n) e) j (ground (arith, r))
]

-- What was found is an aligned run of free bits, which are taken.
abbrev Found : (ℕ → Bool) → ℕ → ℕ → Option (ℕ × (ℕ → Bool)) → Type 0
Found b n log none = Unit {0}
Found b n log (some (i, b')) =
    (i % 2 ^ log ≡ 0)
    × ((j : ℕ) → in_run i n j ≡ true → b j ≡ true)
    × ((j : ℕ) → b' j ≡ (if in_run i n j then false else b j))

run_or_rest :
    (b : ℕ → Bool) (n log i : ℕ) (rest : Option (ℕ × (ℕ → Bool)))
    → Found b n log rest
    → (aligned all : Bool) → (i % 2 ^ log == 0) ≡ aligned
    → all_free b i n ≡ all
    → Found b n log (if aligned && all then some (i, take_run b i n) else rest)
run_or_rest b n log i rest h true true e f =
    ((==_iff (i % 2 ^ log) 0).0 e, all_free_lem b i n f, λ j. refl)
run_or_rest b n log i rest h true false e f = h
run_or_rest b n log i rest h false true e f = h
run_or_rest b n log i rest h false false e f = h

search_below-Found :
    (limit : ℕ) (b : ℕ → Bool) (n log : ℕ) → Found b n log (search_below limit b n log)
search_below-Found zero b n log = tt
search_below-Found (suc i) b n log =
    run_or_rest b n log i (search_below i b n log) (search_below-Found i b n log) (i % 2 ^ log == 0)
      (all_free b i n) refl refl

leb_zero : (j : ℕ) → leb 0 j ≡ true
leb_zero j = ground arith

eight_bits-BitAllocLaws : BitAllocLaws eight_bits
eight_bits-BitAllocLaws = record {
  free-default = λ j. refl;
  free-insert = λ b n j h. ap (λ t. t && ltb j n || b j) (leb_zero j);
  alloc-some = λ b i b' e.
      let found : Found b 1 0 (some (i, b')) = subst (Found b 1 0) e (search_below-Found 8 b 1 0) in
      (found.1 i (ground arith), found.2);
  contiguous-some = λ b n log i b' e. subst (Found b n log) e (search_below-Found 8 b n log);
  free-dealloc = λ b i j h e. refl;
}

abbrev four_free : BitmapPageAllocator eight_bits
four_free = record {
  page_size = 4096;
  base = 8192;
  total_pages = 4;
  used_pages = 0;
  inner = λ j. ltb j 4;
}

abbrev all_used : BitmapPageAllocator eight_bits
all_used = record {
  page_size = 4096;
  base = 8192;
  total_pages = 4;
  used_pages = 4;
  inner = λ j. false;
}

-- The four pages from 8192 to 24576, for a region of which the ends are not aligned.
pages_of_a_region :
    init eight_bits (new eight_bits 4096) 5000 20000
    ≡ some (record {
      page_size = 4096;
      base = 8192;
      total_pages = 4;
      used_pages = 0;
      inner = eight_bits.insert eight_bits.default 0 4;
    })
unfolding init
pages_of_a_region = refl

two_aligned : (alloc_pages eight_bits four_free 2 8192).1 ≡ ok 16384
unfolding alloc_pages
two_aligned = refl

odd_alignment : (alloc_pages eight_bits four_free 2 5000).1 ≡ err invalid_param
unfolding alloc_pages
odd_alignment = refl

dealloc_frees_one_example :
    ((j : ℕ)
      → (dealloc_pages eight_bits all_used (address eight_bits all_used 1) 3).inner j
        ≡ (if j == 1 then true else false))
    × ((dealloc_pages eight_bits all_used (address eight_bits all_used 1) 3).used_pages
        ≡ wrapping_sub 4 3)
dealloc_frees_one_example =
    dealloc_frees_one eight_bits eight_bits-BitAllocLaws all_used 1 2 (omega arith) (omega arith)
      (omega arith) (λ j r. refl)
