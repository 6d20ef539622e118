-- ===== src/Region/Tests.antt =====
-- Geometries with pages of 4096 bytes.
use coffin.Prelude.{◌^◌, ◌<◌, ◌≡◌, ◌↔◌, refl, true, some, none, arith}
use mathlib.Core.Path.{subst}
use coffin.Config.{above, below}
use coffin.Samples.{small, small_geometry}
use coffin.Region.{Geometry, place, round_up, align_down, geometry_for}
use coffin.Region.Cases.{alignment_is_always_respected, above_mode_buffer_abuts_guard}
use coffin.Region.Bounds.{IsRequest, Fences, geometry_for-Fences, geometry_for-eq-none}

pub geometry_for-small : geometry_for small above 4096 ≡ some small_geometry
unfolding geometry_for place round_up align_down
geometry_for-small = refl

pub small-IsRequest : IsRequest small 2 12
small-IsRequest = record {
  aligned = refl;
  within_page = omega arith;
  page_small = omega arith;
  size_small = omega arith;
}

pub small_geometry-Fences : Fences small 4096 above small_geometry
small_geometry-Fences =
    let (g, e, f) = geometry_for-Fences small 2 12 above small-IsRequest in
    subst (Fences small 4096 above) (cc (e, geometry_for-small)) f

geometry_for-Fences_example :
    (g : Geometry) × (geometry_for small above (2 ^ 12) ≡ some g) × Fences small (2 ^ 12) above g
geometry_for-Fences_example = geometry_for-Fences small 2 12 above small-IsRequest

geometry_for-eq-none_test : (geometry_for small below 4096 ≡ none) ↔ (4096 < 4)
geometry_for-eq-none_test = geometry_for-eq-none small below 4096

alignment_test : alignment_is_always_respected ≡ true
unfolding geometry_for place round_up align_down
alignment_test = refl

abutting_test : above_mode_buffer_abuts_guard ≡ true
unfolding geometry_for place round_up align_down
abutting_test = refl
