-- ===== src/ErrorCode/Tests.antt =====
-- Runs of the error codes (src/error.rs).
use metaflux_client_rust.Base.{◌≡◌, ◌↔◌}
use metaflux_client_rust.ErrorCode.{not_found, as_str, from_wire}
use metaflux_client_rust.ErrorCode.RoundTrip.{from_wire_iff}

from_wire_iff_example : (from_wire "NOT_FOUND" ≡ not_found) ↔ ("NOT_FOUND" ≡ as_str not_found)
from_wire_iff_example = from_wire_iff not_found "NOT_FOUND" tt
