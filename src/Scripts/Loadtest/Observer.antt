-- ===== src/Scripts/Loadtest/Observer.antt =====
-- What the observer of the map in examples/actioncable-demo/frontend/loadtest.mjs leaves alone.
use y_ruby.Base.{◌≡◌, arith}
use y_ruby.External.{Packages}
use y_ruby.Scripts.Loadtest.{Client, observe, on_lat}

module _ {lib : Packages} where
  pub observe-posts :
      (before : lib.Doc) (c : Client lib)
      → ((observe before c).posts ≡ c.posts) × ((observe before c).doc ≡ c.doc)
  unfolding observe on_lat
  observe-posts before c = ground arith
