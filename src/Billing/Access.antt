-- ===== src/Billing/Access.antt =====
-- What `has_access` of billing/services.py promises a shop.
