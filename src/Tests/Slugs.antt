-- ===== src/Tests/Slugs.antt =====
-- The names of sizes, with ASCII's upper case.
use treenq.Base.{◌-◌, leb, ◌&&◌, if◌then◌else◌, [], ◌∷◌, bytes, ◌≡◌, refl}
use treenq.Go.{split}
use treenq.Cmd.Sizes.{Runes, kebab_to_camel}
use treenq.Cmd.Sizes.Camel.{camel_of, kebab_to_camel-split}

abbrev ascii : Runes
ascii = record {
  to_upper = λ c. if leb b'a' c && leb c b'z' then c - 32 else c;
  string_of = λ c. c ∷ [];
}

kebab_to_camel-split_example :
    kebab_to_camel ascii (bytes "s-1vcpu--gb") ≡ camel_of ascii (split (bytes "s-1vcpu--gb") b'-')
kebab_to_camel-split_example = kebab_to_camel-split ascii (bytes "s-1vcpu--gb")

camel : kebab_to_camel ascii (bytes "s-1vcpu--gb") ≡ bytes "s1vcpuGb"
unfolding kebab_to_camel
camel = refl
