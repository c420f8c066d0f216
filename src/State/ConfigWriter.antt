-- ===== src/State/ConfigWriter.antt =====
-- dasik/lib/state/config_writer.py: ConfigWriter.merge. Values are immutable here, so the deep copy
-- of a fragment's value is the value.
pub mod Laws
mod Tests
use dasik.Base.{Dict, update}

-- ConfigWriter.merge
unfoldable pub merge {ℓ} : {V : Type ℓ} → Dict V → Dict V → Dict V
merge existing fragments = update existing fragments
