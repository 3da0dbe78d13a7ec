-- ===== src/Interceptor/Procedures.antt =====
-- The tables of Connect procedures in internal/hades/server/authorization/middleware.go. Procedures
-- are compared whole, so that they are texts of the language; a Go map with the value true for
-- each key is the list of its keys.
use hades.Prelude.{List, String, [], ◌∷◌}

-- no credential is read
unfoldable pub no_auth_procedures : List String
no_auth_procedures =
    "/hades.api.auth.v1.AuthenticationService/Login"
    ∷ "/hades.api.auth.v1.AuthenticationService/Register"
    ∷ "/hades.api.auth.v1.AuthenticationService/Signin"
    ∷ "/hades.api.auth.v1.AuthenticationService/VerifyEmail"
    ∷ "/hades.api.auth.v1.AuthenticationService/RequestPasswordReset"
    ∷ "/hades.api.auth.v1.AuthenticationService/ResetPassword"
    ∷ "/hades.api.auth.v1.DeviceService/RequestDeviceCode"
    ∷ "/hades.api.auth.v1.DeviceService/PollDeviceToken"
    ∷ "/hades.api.auth.v1.OAuthService/GetOAuthURL"
    ∷ "/hades.api.auth.v1.OAuthService/OAuthCallback" ∷ []

-- anonymous without an Authorization header
unfoldable pub optional_auth_procedures : List String
optional_auth_procedures =
    "/hades.api.registry.v1.ModuleService/ListModules"
    ∷ "/hades.api.registry.v1.ModuleService/GetModule"
    ∷ "/hades.api.registry.v1.CommitService/ListCommits"
    ∷ "/hades.api.registry.v1.CommitService/GetCommit"
    ∷ "/hades.api.registry.v1.CommitService/GetCommitDiff"
    ∷ "/hades.api.registry.v1.CommitService/ListModuleFiles"
    ∷ "/hades.api.registry.v1.CommitService/GetFileContent"
    ∷ "/hades.api.registry.v1.CIService/GetCIRun" ∷ "/hades.api.registry.v1.SDKService/ListSDKs"
    ∷ "/hades.api.identity.v1.UserService/GetUser"
    ∷ "/hades.api.identity.v1.OrgService/ListOrganizations"
    ∷ "/hades.api.identity.v1.OrgService/GetUserOrgs" ∷ "/hades.api.identity.v1.OrgService/GetOrg"
    ∷ "/buf.registry.module.v1.ModuleService/GetModules"
    ∷ "/buf.registry.module.v1.CommitService/GetCommits"
    ∷ "/buf.registry.module.v1.GraphService/GetGraph"
    ∷ "/buf.registry.module.v1.DownloadService/Download" ∷ []

-- open to a session that waits for its second factor
unfoldable pub totp_pending_allowed : List String
totp_pending_allowed =
    "/hades.api.auth.v1.TOTPService/VerifyTOTP" ∷ "/hades.api.auth.v1.AuthenticationService/Logout"
    ∷ []

-- open before the email address is verified
unfoldable pub email_unverified_allowed : List String
email_unverified_allowed =
    "/hades.api.auth.v1.AuthenticationService/ResendVerificationEmail"
    ∷ "/hades.api.auth.v1.AuthenticationService/Logout" ∷ []

-- closed to API tokens
unfoldable pub session_only_procedures : List String
session_only_procedures =
    "/hades.api.auth.v1.AuthenticationService/ChangePassword"
    ∷ "/hades.api.auth.v1.AuthenticationService/Logout"
    ∷ "/hades.api.auth.v1.TOTPService/BeginEnrollTOTP"
    ∷ "/hades.api.auth.v1.TOTPService/ConfirmEnrollTOTP"
    ∷ "/hades.api.auth.v1.TOTPService/DisableTOTP" ∷ "/hades.api.auth.v1.TOTPService/VerifyTOTP"
    ∷ "/hades.api.auth.v1.TOTPService/ListBackupCodes"
    ∷ "/hades.api.auth.v1.TOTPService/RegenerateBackupCodes"
    ∷ "/hades.api.auth.v1.SessionService/ListSessions"
    ∷ "/hades.api.auth.v1.SessionService/RevokeSession"
    ∷ "/hades.api.auth.v1.SessionService/RevokeAllOtherSessions"
    ∷ "/hades.api.auth.v1.APITokenService/CreateAPIToken"
    ∷ "/hades.api.auth.v1.APITokenService/ListAPITokens"
    ∷ "/hades.api.auth.v1.APITokenService/RevokeAPIToken"
    ∷ "/hades.api.auth.v1.DeviceService/ApproveDeviceGrant"
    ∷ "/hades.api.auth.v1.OAuthService/ListLinkedProviders"
    ∷ "/hades.api.auth.v1.OAuthService/UnlinkProvider"
    ∷ "/hades.api.auth.v1.AuditService/ListAuditLog" ∷ []

-- closed to interactive sessions
unfoldable pub pat_only_procedures : List String
pat_only_procedures =
    "/buf.registry.module.v1.UploadService/Upload"
    ∷ "/buf.alpha.registry.v1alpha1.AuthnService/GetCurrentUser" ∷ []

-- externalProcedure, the label of callers that are no Connect procedure
abbrev pub external_procedure : String
external_procedure = "(external)"
