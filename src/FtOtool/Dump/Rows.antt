-- ===== src/FtOtool/Dump/Rows.antt =====
-- What `dump_section` prints: row after row, each with the address of its first byte.
use mathlib.Core.List.{append_assoc, reverse-reverse}
use nm.Common.{
  ℕ, zero, suc, ◌+◌, ◌*◌, ◌%◌, ◌^◌, ◌≤◌, ◌<◌, ◌≡◌, refl, sym, ap, ◌∙◌, Bool, true, false, List, [],
  ◌∷◌, ◌++◌, map, reverse, length, length-append, take, drop, if◌then◌else◌, arith, inl, inr, ltb,
}
use nm.Machine.{Machine, Ptr, ok, ◌⊕◌, read_le, read_word}
use nm.Machine.Access.{read_le-middle}
use nm.Machine.Steps.{step}
use nm.Machine.Words.{le_bytes, length-le_bytes, le_value-le_bytes, write_le-middle}
use nm.Common.Slices.{take-drop, drop-all, length-drop}
use nm.FtNm.Safe.{is_safe}
use nm.FtNm.Safe.Bounds.{is_safe_iff, in_or_below}
use nm.FtOtool.Dump.{
  Call, success, put_byte, put_byte_space, put_tab, put_newline, hexdump_address, hexdump_data,
  add_16, dump_loop, dump_section,
}
use nm.FtOtool.Dump.Bytes.{IsLine, length-reverse, hexdump_data-IsLine, hexdump_address-reverse}

-- The rows of the bytes from the address `a` on, whose width is `w` bytes.
unfoldable pub rows : (w : ℕ) → (left a : ℕ) → List ℕ → List Call
rows w left a [] = []
rows w zero a (b ∷ ds) = []
rows w (suc left) a (b ∷ ds) =
    map put_byte (reverse (le_bytes w a))
    ++ (put_tab ∷ map put_byte_space (take 16 (b ∷ ds)))
    ++ (put_newline ∷ rows w left (a + 16) (drop 16 (b ∷ ds)))

-- The first 16 bytes of what is left make a line.
first-IsLine : (i size : ℕ) (ds : List ℕ) → i + length ds ≡ size → IsLine i size 16 (take 16 ds)
first-IsLine i size ds e =
    let parts = ap length (take-drop 16 ds) ∙ refl in
    let all = length-append (take 16 ds) (drop 16 ds) in
    let left = length-drop 16 ds in
    record {
      inside = omega (arith, parts, all);
      short = omega (arith, parts, all, left);
      ends = elim (in_or_below (length ds) 16) [
        | inl few ↦ inr (omega (arith, parts, all, left))
        | inr many ↦ inl (omega (arith, parts, all, left))
      ];
    }

abbrev pub width : Bool → ℕ
width is_64 = if is_64 then 8 else 4

width-le : (is_64 : Bool) → width is_64 ≤ 8
width-le true = omega arith
width-le false = omega arith

read_word-width :
    (is_64 : Bool) (p : Ptr) (m : Machine) → read_word is_64 p m ≡ read_le (width is_64) p m
read_word-width true p m = refl
read_word-width false p m = refl

module _ (g k : ℕ) (is_64 : Bool) (pre mid section post : List ℕ) where
  -- The mapping with the address `a` in the field `addr`, and the section somewhere behind it.
  abbrev pub layout : ℕ → Machine
  layout a = record {
    g_begin = g;
    g_map_size = k;
    bytes = pre ++ (le_bytes (width is_64) a ++ (mid ++ (section ++ post)));
  }

  -- The place of the field, and of the section.
  abbrev pub field : Ptr
  field = g + length pre

  abbrev pub start : Ptr
  start = g + length pre + width is_64 + length mid

  module _ (in_file : start + length section ≤ g + k) (low : g + k < 2 ^ 63) where
    field_read :
        (a : ℕ) → a < 256 ^ width is_64 → read_word is_64 field (layout a) ≡ ok a (layout a)
    field_read a h =
        let w = width is_64 in
        let size = length-le_bytes w a in
        let narrow = width-le is_64 in
        read_word-width is_64 field (layout a)
        ∙ ap (λ (n : ℕ). read_le n field (layout a)) (sym size)
        ∙ read_le-middle (layout a) field pre (le_bytes w a) (mid ++ (section ++ post)) refl refl
            (omega (arith, size, narrow))
        ∙ ap (λ (v : ℕ). ok v (layout a)) (le_value-le_bytes w a h)

    add_16-layout :
        (a : ℕ) → a < 256 ^ width is_64 → add_16 field is_64 (layout a) ≡ ok tt (layout (a + 16))
    unfolding add_16
    add_16-layout a h =
        let narrow = width-le is_64 in
        step _ _ (field_read a h)
        ∙ write_le-middle (width is_64) (layout a) field (a + 16) pre (le_bytes (width is_64) a)
            (mid ++ (section ++ post)) (length-le_bytes (width is_64) a) refl refl
            (omega (arith, narrow))

    address-layout :
        (a : ℕ)
        → hexdump_address field is_64 (layout a)
          ≡ ok (map put_byte (reverse (le_bytes (width is_64) a))) (layout a)
    address-layout a =
        let bs = le_bytes (width is_64) a in
        let size = length-reverse bs ∙ length-le_bytes (width is_64) a in
        let narrow = width-le is_64 in
        hexdump_address-reverse (layout a) field is_64 (reverse bs) pre (mid ++ (section ++ post))
          size
          (ap (λ (l : List ℕ). pre ++ (l ++ (mid ++ (section ++ post)))) (sym (reverse-reverse bs)))
          refl (omega (arith, size, narrow))

    place_bytes :
        (bs done ds : List ℕ)
        → section ≡ done ++ ds
        → pre ++ (bs ++ (mid ++ (section ++ post)))
          ≡ (pre ++ (bs ++ (mid ++ done))) ++ (take 16 ds ++ (drop 16 ds ++ post))
    place_bytes bs done ds e =
        let line = take 16 ds in
        let rest = line ++ (drop 16 ds ++ post) in
        let split : section ++ post ≡ done ++ rest =
          ap (λ (l : List ℕ). l ++ post)
            (e ∙ ap (λ (l : List ℕ). done ++ l) (sym (take-drop 16 ds)))
          ∙ append_assoc done (line ++ drop 16 ds) post
          ∙ ap (λ (l : List ℕ). done ++ l) (append_assoc line (drop 16 ds) post) in
        ap (λ (l : List ℕ). pre ++ (bs ++ (mid ++ l))) split
        ∙ sym (
            append_assoc pre (bs ++ (mid ++ done)) rest
            ∙ ap (λ (l : List ℕ). pre ++ l)
                (append_assoc bs (mid ++ done) rest
                  ∙ ap (λ (l : List ℕ). bs ++ l) (append_assoc mid done rest)))

    line-layout :
        (a i : ℕ) (done ds : List ℕ)
        → section ≡ done ++ ds
        → i ≡ length done
        → hexdump_data (start ⊕ i) i (length section) (layout a)
          ≡ ok (map put_byte_space (take 16 ds)) (layout a)
    line-layout a i done ds e at =
        let bs = le_bytes (width is_64) a in
        let sizes = length-append done ds in
        let whole : length section ≡ length (done ++ ds) = ap length e in
        let lined = first-IsLine i (length section) ds (omega (arith, sizes)) in
        let inside = lined.inside in
        hexdump_data-IsLine (layout a) (start ⊕ i) i (length section) (pre ++ (bs ++ (mid ++ done)))
          (take 16 ds) (drop 16 ds ++ post) (omega arith) (place_bytes bs done ds e)
          (omega (
            arith,
            length-append pre (bs ++ (mid ++ done)),
            length-append bs (mid ++ done),
            length-append mid done,
            length-le_bytes (width is_64) a,
          ))
          (omega arith) lined

    loop_end :
        (a i left : ℕ)
        → length section ≤ i
        → dump_loop field is_64 (length section) start i left (layout a)
          ≡ ok (success, []) (layout a)
    unfolding dump_loop
    loop_end a i zero h = refl
    loop_end a i (suc left) h =
        let over : ltb i (length section) ≡ false = ground arith in rw over refl

    -- A round, and what the others do.
    loop_round :
        (a a' i left : ℕ) (done ds : List ℕ) (rest : List Call)
        → section ≡ done ++ ds
        → i ≡ length done
        → 1 ≤ length ds
        → a < 256 ^ width is_64
        → dump_loop field is_64 (length section) start ((i + 16) % 2 ^ 64) left (layout (a + 16))
          ≡ ok (success, rest) (layout a')
        → dump_loop field is_64 (length section) start i (suc left) (layout a)
          ≡ ok
              (
                success,
                map put_byte (reverse (le_bytes (width is_64) a))
                    ++ (put_tab ∷ map put_byte_space (take 16 ds))
                    ++ (put_newline ∷ rest),
              )
              (layout a')
    unfolding dump_loop
    loop_round a a' i left done ds rest e at more h r =
        let sizes = ap length e ∙ length-append done ds in
        let inside : ltb i (length section) ≡ true = ground (arith, sizes) in
        let safe : is_safe (start ⊕ i) (layout a) ≡ true =
          (is_safe_iff (start ⊕ i) (layout a) (omega (arith, sizes)) low).1
            (omega (arith, sizes), omega (arith, sizes)) in
        rw inside (
          step _ _ refl
          ∙ rw safe (
              step _ _ (address-layout a)
              ∙ step _ _ (line-layout a i done ds e at)
              ∙ step _ _ (add_16-layout a h)
              ∙ step _ _ r))

    dump_loop-rows :
        (left a i : ℕ) (done ds : List ℕ)
        → section ≡ done ++ ds
        → i ≡ length done
        → length ds ≤ 16 * left
        → a + length ds < 256 ^ width is_64
        → (a' : ℕ) × (dump_loop field is_64 (length section) start i left (layout a)
            ≡ ok (success, rows (width is_64) left a ds) (layout a'))
    unfolding rows
    dump_loop-rows left a i done [] e at enough h =
        (a, loop_end a i left (omega (arith, ap length e ∙ length-append done [])))
    dump_loop-rows zero a i done (d ∷ ds) e at enough h = absurd (omega arith)
    dump_loop-rows (suc left) a i done (d ∷ ds) e at enough h =
        let sizes = ap length e ∙ length-append done (d ∷ ds) in
        elim (in_or_below (length (d ∷ ds)) 16) [
          | inl few ↦ (
            a + 16,
            loop_round a (a + 16) i left done (d ∷ ds)
                (rows (width is_64) left (a + 16) (drop 15 ds)) e at (omega arith) (omega arith)
                (loop_end (a + 16) ((i + 16) % 2 ^ 64) left (omega (arith, sizes))
                  ∙ ap
                      (λ (l : List ℕ).
                        ok (success, rows (width is_64) left (a + 16) l) (layout (a + 16)))
                      (sym (drop-all 15 ds (omega arith)))),
          )
          | inr many ↦
              let line = take 16 (d ∷ ds) in
              let behind = drop 16 (d ∷ ds) in
              let split = take-drop 16 (d ∷ ds) in
              let whole = ap length split in
              let both = length-append line behind in
              let left_over = length-drop 16 (d ∷ ds) in
              let (a', r) =
                dump_loop-rows left (a + 16) ((i + 16) % 2 ^ 64) (done ++ line) behind
                  (e
                    ∙ ap (λ (l : List ℕ). done ++ l) (sym split)
                    ∙ sym (append_assoc done line behind))
                  (omega (arith, sizes, length-append done line, whole, both, left_over))
                  (omega (arith, left_over)) (omega (arith, left_over)) in
              (
                a',
                loop_round a a' i left done (d ∷ ds) (rows (width is_64) left (a + 16) behind) e at
                    (omega arith) (omega arith) r,
              )
        ]

-- Let a mapping below 2 ^ 63 and of less than 2 ^ 32 bytes hold the field `addr` of a section, its contents
-- somewhere behind it and inside of the file, and let the addresses of the section not wrap. Then
-- `dump_section` does not fault and succeeds; it prints all of the section in rows of 16 bytes, the
-- last one maybe shorter, each behind the address of its first byte; and it changes nothing but the
-- field `addr`.
pub dump_section-rows :
    (g k : ℕ) (is_64 : Bool) (pre mid section post : List ℕ) (a offset p : ℕ)
    → g + length pre + width is_64 + length mid + length section ≤ g + k
    → g + k < 2 ^ 63
    → k < 2 ^ 32
    → a + length section < 256 ^ width is_64
    → p ⊕ offset ≡ g + length pre + width is_64 + length mid
    → (a' : ℕ) × (dump_section
          (g + length pre)
          is_64
          (length section)
          offset
          p
          (layout g k is_64 pre mid section post a)
        ≡ ok
            (success, rows (width is_64) (2 ^ 28 + 1) a section)
            (layout g k is_64 pre mid section post a'))
unfolding dump_section
dump_section-rows g k is_64 pre mid section post a offset p in_file low small h place = rw place (
    dump_loop-rows g k is_64 pre mid section post in_file low (2 ^ 28 + 1) a 0 [] section refl refl
      (omega arith) h)
