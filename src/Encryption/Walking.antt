-- ===== src/Encryption/Walking.antt =====
-- `_walk` of app/domain/encryption.py: the path, and what a walk leaves alone.

use ocr_service.Prelude.{String, ◌≡◌, refl, [], ◌∷◌, arith, if◌then◌else◌}
use ocr_service.Text.{is_empty, partition}
use ocr_service.Encryption.{segments}

-- The segments of a path are the head that `path.partition(".")` gives, and the segments of what
-- follows the dot if that is not empty: the recursion of `_walk`.
pub segments-partition :
    (path : String)
    → segments path ≡ (
        let (head, rest) = partition b'.' path in
        if is_empty rest then head ∷ [] else head ∷ segments rest)
unfolding segments partition
segments-partition String.[] = refl
segments-partition (String.◌∷◌ c s) = ground (arith, segments-partition s)
