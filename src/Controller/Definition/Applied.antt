-- ===== src/Controller/Definition/Applied.antt =====
-- When the flow of a definition reaches a ConfigMap.
