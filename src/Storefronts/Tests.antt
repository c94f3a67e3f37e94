-- ===== src/Storefronts/Tests.antt =====
-- The lookup run on the header of an account.
use perun.Base.{◌≡◌, refl, some, codes}
use perun.Storefronts.{country_code_from_storefront}

us_storefront : country_code_from_storefront (codes "143441-1,32") ≡ some (codes "US")
unfolding country_code_from_storefront
us_storefront = refl
