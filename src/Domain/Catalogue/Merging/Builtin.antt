-- ===== src/Domain/Catalogue/Merging/Builtin.antt =====
-- internal/domain/catalogue.go, NewCatalogue: the built-in entries in the merged catalogue.
use localclaw.Common.{string_eq, nat_eq}
use localclaw.Domain.Role.{Role}
