-- ===== src/Tests/Sizes.antt =====
-- Size slugs: the program's own, one that is none, and the theorems at the first.
use treenq.Base.{bytes, ◌≡◌, refl, returns, panics, arith}
use treenq.Go.{pos, split, scan_digits, atoi}
use treenq.Sdk.{to_computation_resource, size_slug_s, ComputationResource}
use treenq.Sdk.Slugs.{
  slug_of, IsAmount, to_computation_resource-slug_of, to_computation_resource-IsAmount,
}

abbrev small : ComputationResource
small = record { cpu_units = pos 500; memory_mibs = pos 1024; disk_gibs = pos 2 }

small_converts : to_computation_resource size_slug_s ≡ returns small
unfolding to_computation_resource split atoi scan_digits
small_converts = refl

-- The slug of the example configuration in tq/whatever.go.
example_panics :
    to_computation_resource (bytes "basic-xxs")
    ≡ panics (bytes "expected 3 parts in SizeSlug value, given=basic-xxs")
unfolding to_computation_resource split
example_panics = refl

to_computation_resource-slug_of_example :
    to_computation_resource (slug_of 500 1024 2) ≡ returns small
to_computation_resource-slug_of_example =
    to_computation_resource-slug_of 500 1024 2 (omega arith) (omega arith) (omega arith)

to_computation_resource-IsAmount_example :
    IsAmount small.cpu_units × IsAmount small.memory_mibs × IsAmount small.disk_gibs
to_computation_resource-IsAmount_example =
    to_computation_resource-IsAmount size_slug_s small small_converts
