-- ===== src/Deployments.antt =====
-- The pages of the deployments: frontend/hooks/useDeployments.ts, frontend/app/(app)/deployments/page.tsx,
-- frontend/app/(app)/deployments/[id]/page.tsx and frontend/components/shared/ConfirmDialog.tsx.
pub mod Model
pub mod Screens
pub mod ScreenLaws
pub mod DetailLaws
pub mod NoticeLaws
pub mod Examples
