-- ===== src/Kernel/Log.antt =====
-- log.c: the write-ahead log. `Log` is `struct log`; `Io` is what the log sees of the buffer cache
-- and the disk. `view s` are the data of sector `s` as `bread` returns them, which for a sector that
-- `log_write` has pinned are ahead of `disk s`. A sector is 128 words of 32 bits, and its write is
-- atomic. After `power` more writes the machine stops: later writes do not reach the disk, so a run
-- with any `power` shows the disk after a crash between any two writes.
pub mod Replay
pub mod Loops
pub mod Install
pub mod Commit
pub mod Recover
pub mod Transaction
pub mod Reserve
mod Tests
use os_ass.Base.{
  ℕ, zero, suc, ◌+◌, ◌-◌, ◌*◌, Bool, true, false, ◌&&◌, ◌||◌, Option, none, some, ltb, leb, ◌==◌,
  if◌then◌else◌, update, maxopblocks, logsize,
}
use os_ass.Base.Outcome.{Outcome, ok, panic, ◌>>=◌}

abbrev pub Block : Type 0
Block = ℕ → ℕ

-- `struct log` with its `struct logheader` (`n` and `sector`), less the lock and the device.
pub record Log : Type 0 where
  pub start : ℕ
  pub size : ℕ
  pub outstanding : ℕ
  pub committing : Bool
  pub n : ℕ
  pub sector : ℕ → ℕ

pub record Io : Type 0 where
  pub disk : ℕ → Block
  pub view : ℕ → Block
  pub power : ℕ

-- `bwrite` of bio.c on the buffer of sector `s`
pub bwrite : ℕ → Io → Io
bwrite s io = record io {
  disk = if io.power == 0 then io.disk else update io.disk s (io.view s);
  power = io.power - 1;
}

-- `memmove(to->data, from->data, BSIZE); bwrite(to)`
pub copy : ℕ → ℕ → Io → Io
unfolding bwrite
copy from to io = bwrite to (record io { view = update io.view to (io.view from) })

-- The loop of `install_trans` with `rounds` rounds left.
pub install_loop : ℕ → ℕ → Log → Io → Io
install_loop zero tail lg io = io
install_loop (suc rounds) tail lg io =
    install_loop rounds (tail + 1) lg (copy (lg.start + tail + 1) (lg.sector tail) io)

pub install_trans : Log → Io → Io
install_trans lg io = install_loop lg.n 0 lg io

pub read_head_loop : ℕ → ℕ → Block → (ℕ → ℕ) → ℕ → ℕ
read_head_loop zero i lh sector = sector
read_head_loop (suc rounds) i lh sector =
    read_head_loop rounds (i + 1) lh (update sector i (lh (i + 1)))

-- `struct logheader` in the header block: word 0 is `n`, word `i + 1` is `sector[i]`.
pub read_head : Log → Io → Log
read_head lg io =
    let lh = io.view lg.start in
    record lg { n = lh 0; sector = read_head_loop (lh 0) 0 lh lg.sector }

pub write_head_loop : ℕ → ℕ → (ℕ → ℕ) → Block → Block
write_head_loop zero i sector hb = hb
write_head_loop (suc rounds) i sector hb =
    write_head_loop rounds (i + 1) sector (update hb (i + 1) (sector i))

pub write_head : Log → Io → Io
unfolding bwrite
write_head lg io =
    let hb = write_head_loop lg.n 0 lg.sector (update (io.view lg.start) 0 lg.n) in
    bwrite lg.start (record io { view = update io.view lg.start hb })

pub recover_from_log : Log → Io → Log × Io
recover_from_log lg io =
    let lg1 = read_head lg io in
    let io1 = install_trans lg1 io in let lg2 = record lg1 { n = 0 } in (lg2, write_head lg2 io1)

pub write_log_loop : ℕ → ℕ → Log → Io → Io
write_log_loop zero tail lg io = io
write_log_loop (suc rounds) tail lg io =
    write_log_loop rounds (tail + 1) lg (copy (lg.sector tail) (lg.start + tail + 1) io)

pub write_log : Log → Io → Io
write_log lg io = write_log_loop lg.n 0 lg io

pub commit : Log → Io → Log × Io
commit lg io =
    if ltb 0 lg.n
    then (let io3 = install_trans lg (write_head lg (write_log lg io)) in
        let lg' = record lg { n = 0 } in (lg', write_head lg' io3))
    else (lg, io)

-- `begin_op` up to its return; `none` is a sleep on `&log`, after which it tests again.
pub begin_op : Log → Option Log
begin_op lg =
    if lg.committing
    then none
    else if ltb logsize (lg.n + (lg.outstanding + 1) * maxopblocks)
    then none
    else some (record lg { outstanding = lg.outstanding + 1 })

-- The first critical section of `end_op`, with `do_commit`. (`outstanding` would fall to -1 in an
-- `end_op` with no `begin_op` before it, and does not commit then; here it stays at 0.)
pub end_op_leave : Log → Outcome (Log × Bool)
end_op_leave lg =
    if lg.committing
    then panic "log.committing"
    else if lg.outstanding == 1
    then ok (record lg { outstanding = lg.outstanding - 1; committing = true }, true)
    else ok (record lg { outstanding = lg.outstanding - 1 }, false)

-- What `end_op` does with `do_commit`: `commit`, without the lock, and the second critical section.
pub end_op_commit : Log → Io → Log × Io
end_op_commit lg io = let done = commit lg io in (record (done.0) { committing = false }, done.1)

-- `end_op` when nothing happens between its two critical sections: Reserve takes them as two steps.
pub end_op : Log → Io → Outcome (Log × Io)
end_op lg io = end_op_leave lg >>= λ r. if r.1 then ok (end_op_commit r.0 io) else ok (r.0, io)

-- The search of `log_write` for the block's place.
pub find_loop : ℕ → ℕ → (ℕ → ℕ) → ℕ → ℕ
find_loop zero i sector s = i
find_loop (suc rounds) i sector s =
    let later = find_loop rounds (i + 1) sector s in if sector i == s then i else later

-- `log_write` on a buffer of sector `s`, whose data `b` the caller has already changed. B_DIRTY
-- pins the buffer, so that `view s` stays `b`.
pub log_write : ℕ → Block → Log → Io → Outcome (Log × Io)
log_write s b lg io =
    if leb logsize lg.n || leb (lg.size - 1) lg.n
    then panic "too big a transaction"
    else if ltb lg.outstanding 1
    then panic "log_write outside of trans"
    else (let i = find_loop lg.n 0 lg.sector s in
        ok (
          record lg { sector = update lg.sector i s; n = if i == lg.n then lg.n + 1 else lg.n },
          record io { view = update io.view s b },
        ))
