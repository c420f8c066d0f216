-- ===== src/Expand/Toggles/Wireguard/Laws.antt =====
-- dasik/lib/expand/toggles.py, resolve_backend: which conversions of a tunnel happen.
