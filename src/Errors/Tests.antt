-- ===== src/Errors/Tests.antt =====
-- pkg/errors/errors.go, at concrete inputs.
use pin_go.Base.{◌≡◌, refl, pos}
use pin_go.Errors.{Error, cache_error, http_status_code, new_with_status}

abbrev inner : Error
unfolding new_with_status
inner = new_with_status cache_error "key not found" (pos 404)

own_status : http_status_code inner ≡ pos 404
unfolding http_status_code inner new_with_status
own_status = refl
