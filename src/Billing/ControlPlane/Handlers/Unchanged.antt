-- ===== src/Billing/ControlPlane/Handlers/Unchanged.antt =====
-- billing/control_plane.py: the answers 400, 404 and 409, of every request.
