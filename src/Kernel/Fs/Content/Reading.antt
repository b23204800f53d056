-- ===== src/Kernel/Fs/Content/Reading.antt =====
-- `readi` on a file whose blocks are allocated.
use os_ass.Base.{
  ℕ, zero, suc, ◌+◌, ◌*◌, ◌/◌, ◌%◌, ◌-◌, ◌^◌, ◌≤◌, ◌<◌, ◌≡◌, ◌≢◌, refl, sym, ap, ap₂, ◌∙◌, Bool,
  true, false, ◌&&◌, ◌||◌, ◌++◌, ◌==◌, ltb, leb, min, if◌then◌else◌, bsize, add32, arith,
  Bool-cases, inl, inr, ==→eq, ==→ne, ne→==,
}
use os_ass.Base.Outcome.{ok}
use os_ass.Kernel.Fs.{Disk}
use os_ass.Kernel.Fs.Inode.{Inode, t_dev}
use os_ass.Kernel.Fs.Content.{slice, chunk, read_loop, done, failed, readi}
use os_ass.Kernel.Fs.Content.Mapped.{
  addr_of, content, IsMapped, bmap-IsMapped, span, span-append, slice-span,
}

-- The bytes of one round are in one block.
chunk-content :
    (d : Disk) (ip : Inode) (off left : ℕ)
    → slice (d (addr_of d ip (off / bsize))) (off % bsize) (chunk off left)
      ≡ span (content d ip) off (chunk off left)
chunk-content d ip off left =
    slice-span (d (addr_of d ip (off / bsize))) (content d ip) (off % bsize) off (chunk off left)
      (λ j l. ap₂ (λ a k. d (addr_of d ip a) k) (same_block j l) (same_place j l))
  where
    same_block : (j : ℕ) → j < chunk off left → off / bsize ≡ (off + j) / bsize
    same_block j l = omega (arith, l)

    same_place : (j : ℕ) → j < chunk off left → off % bsize + j ≡ (off + j) % bsize
    same_place j l = omega (arith, l)

chunk_then_rest :
    (d : Disk) (ip : Inode) (off left : ℕ)
    → slice (d (addr_of d ip (off / bsize))) (off % bsize) (chunk off left)
        ++ span (content d ip) (off + chunk off left) (left - chunk off left)
      ≡ span (content d ip) off left
chunk_then_rest d ip off left =
    let e : chunk off left + (left - chunk off left) ≡ left = omega arith in
    ap (λ t. t ++ span (content d ip) (off + chunk off left) (left - chunk off left))
      (chunk-content d ip off left)
    ∙ sym (span-append (content d ip) off (chunk off left) (left - chunk off left))
    ∙ ap (span (content d ip) off) e

read_loop_lem :
    (rounds off left n : ℕ) (ip : Inode) (d : Disk)
    → IsMapped d ip n
    → off + left ≤ n * bsize
    → left ≤ rounds
    → read_loop rounds off left ip d ≡ ok (span (content d ip) off left, ip, d)
unfolding read_loop span
read_loop_lem zero off left n ip d m h l = let e : left ≡ 0 = omega (arith, l) in rw e refl
read_loop_lem (suc rounds) off left n ip d m h l = elim (Bool-cases (left == 0)) [
  | inl e ↦ rw e (ap (λ k. ok (span (content d ip) off k, ip, d)) (sym (==→eq left 0 e)))
  | inr e ↦
      let ne = ==→ne left 0 e in
      rw
        (
          e,
          bmap-IsMapped d ip n (off / bsize) m (omega (arith, h, ne)),
          read_loop_lem rounds (off + chunk off left) (left - chunk off left) n ip d m
              (omega (arith, h)) (omega (arith, l, ne)),
        )
        (ap (λ t. ok (t, ip, d)) (chunk_then_rest d ip off left))
]

-- On a file whose blocks are allocated, `readi` returns the bytes from the offset on, `n` of them or
-- those before the end of the file, and changes nothing. An offset behind the end, or a sum that
-- wraps, gives -1.
pub readi_lem :
    (has : ℕ → Bool) (ip : Inode) (off n blocks : ℕ) (d : Disk)
    → IsMapped d ip blocks
    → ip.size ≤ blocks * bsize
    → ip.type ≢ t_dev
    → off < 2 ^ 32
    → n < 2 ^ 32
    → readi has ip off n d
      ≡ ok (
        if leb off ip.size && ltb (off + n) (2 ^ 32)
            then done (span (content d ip) off (min n (ip.size - off)))
            else failed,
        ip,
        d,
      )
unfolding readi
readi_lem has ip off n blocks d m s nd h g =
    let file : (ip.type == t_dev) ≡ false = ne→== _ t_dev nd in
    elim (Bool-cases (leb off ip.size && ltb (off + n) (2 ^ 32))) [
      | inl e ↦
          let t : (ltb ip.size off || ltb (add32 off n) off) ≡ false = ground (arith, e, h, g) in
          let sum : add32 off n ≡ off + n = ground (arith, e) in
          let cut : (if ltb ip.size (off + n) then ip.size - off else n) ≡ min n (ip.size - off) =
            ground (arith, e) in
          rw
            (
              file,
              t,
              sum,
              cut,
              e,
              read_loop_lem (min n (ip.size - off)) off (min n (ip.size - off)) blocks ip d m
                  (ground (arith, e, s)) (omega arith),
            )
            refl
      | inr e ↦
          let t : (ltb ip.size off || ltb (add32 off n) off) ≡ true = ground (arith, e, h, g) in
          rw (file, t, e) refl
    ]
