-- ===== src/Worldstate/Archive/Tests.antt =====
-- The theorems on the archive at concrete archives; a layer is a number.
use teler.Base.{ℕ, ◌≡◌, ◌↔◌, true, ◌&&◌, none, some, ◌==◌, if◌then◌else◌}
use teler.Worldstate.Archive.{Archive, new_archive, register, deregister, get_layered, has}
use teler.Worldstate.Archive.Refines.{
  IsTidy, register-get_layered, deregister-get_layered, register-deregister-IsTidy, has-get_layered,
}

abbrev two_layers : Archive ℕ
two_layers = register (register (new_archive 128 16) 7 70 700) 7 71 701

register-get_layered_example :
    get_layered (register two_layers 7 72 702) 7 71
    ≡ (if 7 == 7 && 71 == 72 then some 702 else get_layered two_layers 7 71)
register-get_layered_example = register-get_layered two_layers 7 72 702 7 71

deregister-get_layered_example :
    get_layered (deregister two_layers 7 70) 7 70
    ≡ (if 7 == 7 && 70 == 70 then none else get_layered two_layers 7 70)
deregister-get_layered_example = deregister-get_layered two_layers 7 70 7 70

abbrev fresh : Archive ℕ
fresh = new_archive 128 16

fresh-IsTidy : IsTidy fresh
unfolding new_archive
fresh-IsTidy = record { tidy = λ i e. cc }

register-deregister-IsTidy_example :
    IsTidy (register fresh 7 70 700) × IsTidy (deregister fresh 7 70)
register-deregister-IsTidy_example = register-deregister-IsTidy fresh 7 70 700 fresh-IsTidy

has-get_layered_example :
    (has two_layers 7 71 ≡ true) ↔ ((layer : ℕ) × (get_layered two_layers 7 71 ≡ some layer))
has-get_layered_example = has-get_layered two_layers 7 71
