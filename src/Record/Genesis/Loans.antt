-- ===== src/Record/Genesis/Loans.antt =====
-- internal/fetch/record/genesisrecord.go: what the loans of the genesis leave of the metadata.
