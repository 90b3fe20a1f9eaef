-- ===== src/Vault/Ownership.antt =====
-- What a cleanup removes: expired attachments of its own session.
