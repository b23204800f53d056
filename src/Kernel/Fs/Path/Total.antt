-- ===== src/Kernel/Fs/Path/Total.antt =====
-- `namex` ends.
