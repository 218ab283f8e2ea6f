-- ===== src/Net/Flags/Tests.antt =====
-- The theorem on the flags of net/flagChecker.h at the last flag of the word.
